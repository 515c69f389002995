-- ===== src/Neardup/Laws.antt =====
-- What the near-duplicate index relies on of Redis sets, while no key expires and no other client
-- writes.
use webspider.Prelude.{Bool, false, ◌&&◌, ◌||◌, ◌≡◌, List, [], ◌∷◌, Text, text_eq, text_elem}
use webspider.Outcome.{ok}
use webspider.Services.{Services, Command, sadd, expire, incrby, hincrby}

-- Whether the queue adds the value to the set of the key.
unfoldable pub queued : Text → Text → List Command → Bool
queued j v [] = false
queued j v (sadd k u ∷ cs) = (text_eq j k && text_eq v u) || queued j v cs
queued j v (expire k t ∷ cs) = queued j v cs
queued j v (incrby k n ∷ cs) = queued j v cs
queued j v (hincrby k f n ∷ cs) = queued j v cs

pub record SetLaws (sv : Services) : Type 0 where
  -- the content of the set of a key
  pub member : sv.World → Text → Text → Bool
  -- SMEMBERS returns it
  pub smembers_content :
      (k : Text) (w : sv.World) (ms : List Text)
      → (sv.smembers k w).0 ≡ ok ms
      → (v : Text) → text_elem v ms ≡ member w k v
  -- and changes none
  pub smembers_keeps :
      (k : Text) (w : sv.World) (j v : Text) → member (sv.smembers k w).1 j v ≡ member w j v
  -- a pipeline that succeeds has added what its SADDs name, and removed nothing
  pub execute_adds :
      (cs : List Command) (w : sv.World)
      → (sv.execute cs w).0 ≡ ok tt
      → (j v : Text) → member (sv.execute cs w).1 j v ≡ (queued j v cs || member w j v)
