-- ===== src/Tests/Queue.antt =====
-- Services over a stream whose messages are pending, and a pool of ten connections.
use webspider.Prelude.{
  ℕ, zero, suc, ◌<◌, ltb→lt, ◌≡◌, refl, ap, Bool, true, false, List, [], ◌∷◌, none, some, Text,
  length, take, ltb, text_elem, if◌then◌else◌, Bool-cases, inl, inr,
}
use webspider.Outcome.{Outcome, ok, raise, redis_error, database_error, Error, ok-injective}
use webspider.Services.{Services, Message}
use webspider.Services.Run.{State}
use webspider.Pipeline.Batch.{msg_ids}
use webspider.Pipeline.Batch.Untouched.{Untouched}
use webspider.Pipeline.Consumer.Recovery.{Pending, remove}
use webspider.Pipeline.Consumer.Leak.{Pool}
use webspider.Tests.World.{batch}

pub record Queue : Type 0 where
  pub pending : List Message
  pub taken : ℕ

unfoldable pub without : List Text → List Message → List Message
unfolding text_elem
without ids [] = []
without ids ((id, raw) ∷ messages) =
    let rest = without ids messages in if text_elem id ids then rest else (id, raw) ∷ rest

abbrev pub take_conn : Bool → Queue → Outcome (Unit {0}) × Queue
take_conn true w = (ok tt, record w { taken = suc w.taken })
take_conn false w = (raise database_error, w)

abbrev pub queue : Services
queue = record {
  World = Queue;
  smembers = λ k w. (ok [], w);
  exists = λ k w. (ok true, w);
  set_key = λ k v w. (ok tt, w);
  execute = λ cs w. (ok tt, w);
  sismember = λ k v w. false;
  script_sadd = λ k v w. w;
  script_xadd = λ stream n fields w. w;
  eval = λ f w. let (n, w') = f w in (ok n, w');
  incr = λ k n w. (ok tt, w);
  xack = λ ids w. (ok tt, record w { pending = without ids w.pending });
  xadd = λ stream fields w. (ok tt, w);
  xdel = λ stream id w. (ok tt, w);
  xpending = λ n w. (ok (take n (msg_ids w.pending)), w);
  xread_pending = λ n w. (ok (some (take n w.pending)), w);
  xread_new = λ n w. (ok none, w);
  xgroup_create = λ w. (ok true, w);
  get_conn = λ w. take_conn (ltb w.taken 10) w;
  rollback = λ w. (ok tt, w);
  close_conn = λ w. (ok tt, w);
  xrange = λ stream n w. (ok [], w);
  xlen = λ stream w. (ok 0, w);
  fetch = λ urls w. (ok (record { pages = []; gone = [] }), w);
  insert = λ rows w. (ok (length rows), w);
  commit = λ w. (ok tt, w);
  select_hashes = λ w. (ok [], w);
}

-- The same while Redis is down.
abbrev pub down_queue : Services
down_queue = record queue { xpending = λ n w. (raise redis_error, w) }

abbrev pub three : State queue
three = record { world = record { pending = batch; taken = 1 }; seen = [] }

abbrev pub stuck : State down_queue
stuck = record { world = record { pending = batch; taken = 1 }; seen = [] }

msg_ids-take : (n : ℕ) (l : List Message) → msg_ids (take n l) ≡ take n (msg_ids l)
unfolding msg_ids
msg_ids-take zero l = refl
msg_ids-take (suc n) [] = refl
msg_ids-take (suc n) ((id, raw) ∷ l) = ap (λ ids. id ∷ ids) (msg_ids-take n l)

msg_ids-without :
    (ids : List Text) (l : List Message) → msg_ids (without ids l) ≡ remove ids (msg_ids l)
unfolding msg_ids without remove text_elem
msg_ids-without ids [] = refl
msg_ids-without ids ((id, raw) ∷ l) = elim (Bool-cases (text_elem id ids)) [
  | inl e ↦ rw e (msg_ids-without ids l)
  | inr e ↦ rw e (ap (λ rest. id ∷ rest) (msg_ids-without ids l))
]

abbrev pub pending_ids : Queue → List Text
pending_ids w = msg_ids w.pending

abbrev pub untouched : (X : Type 0) (view : Queue → X) → Untouched queue view
untouched X view = record {
  smembers = λ k. record { at = λ w. refl };
  execute = λ cs. record { at = λ w. refl };
  eval = λ f h. record { at = h };
  script_sadd = λ k v w. refl;
  script_xadd = λ k n fields w. refl;
  incr = λ k n. record { at = λ w. refl };
  fetch = λ urls. record { at = λ w. refl };
  insert = λ rows. record { at = λ w. refl };
  commit = record { at = λ w. refl };
}

pub queue-Pending : Pending queue pending_ids
unfolding msg_ids
queue-Pending = record {
  batch = untouched (List Text) pending_ids;
  xpending-Spares = λ n. record { at = λ w. refl };
  xpending = λ n w ids e. rw (← ok-injective e) refl;
  xread-Spares = λ n. record { at = λ w. refl };
  xread =
      λ n w response e. (take n w.pending, rw (← ok-injective e) refl, msg_ids-take n w.pending);
  xack = λ ids w e. msg_ids-without ids w.pending;
}

take_conn-given :
    (b : Bool) (w : Queue) → (take_conn b w).0 ≡ ok tt → (take_conn b w).1.taken ≡ suc w.taken
take_conn-given true w e = refl
take_conn-given false w e = cc

take_conn-left :
    (b : Bool) (w : Queue) → ltb w.taken 10 ≡ b → (take_conn b w).0 ≡ ok tt → w.taken < 10
take_conn-left true w h e = ltb→lt _ _ h
take_conn-left false w h e = cc

take_conn-refused :
    (b : Bool) (w : Queue) (x : Error)
    → (take_conn b w).0 ≡ raise x
    → (take_conn b w).1.taken ≡ w.taken
take_conn-refused true w x e = cc
take_conn-refused false w x e = refl

pub down-Pool : Pool down_queue 10 (λ (w : Queue). w.taken)
down-Pool = record {
  given = λ w e. take_conn-given (ltb w.taken 10) w e;
  left = λ w e. take_conn-left (ltb w.taken 10) w refl e;
  refused = λ w x e. take_conn-refused (ltb w.taken 10) w x e;
  batch = record {
    smembers = λ k. record { at = λ w. refl };
    execute = λ cs. record { at = λ w. refl };
    eval = λ f h. record { at = h };
    script_sadd = λ k v w. refl;
    script_xadd = λ k n fields w. refl;
    incr = λ k n. record { at = λ w. refl };
    fetch = λ urls. record { at = λ w. refl };
    insert = λ rows. record { at = λ w. refl };
    commit = record { at = λ w. refl };
  };
  xpending = λ n. record { at = λ w. refl };
  xread = λ n. record { at = λ w. refl };
  xack = λ ids. record { at = λ w. refl };
}
