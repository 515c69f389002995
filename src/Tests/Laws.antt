-- ===== src/Tests/Laws.antt =====
-- The services in memory keep the laws that the theorems rely on.
use webspider.Prelude.{
  ℕ, ◌≡◌, refl, ap, arith, Bool, true, ◌||◌, List, [], ◌∷◌, ◌++◌, Text, text_eq, text_eq_refl,
  text_elem, Bool-cases, inl, inr,
}
use webspider.Outcome.{ok-injective}
use webspider.Services.{Command, sadd, expire, incrby, hincrby}
use webspider.Neardup.Laws.{queued, SetLaws}
use webspider.Pipeline.DeadLetter.Once.{ScriptLaws}
use webspider.Tests.World.{Memory, memory, members_of, holds, additions}

members_of-holds :
    (k v : Text) (sets : List (Text × Text)) → text_elem v (members_of k sets) ≡ holds sets k v
unfolding members_of holds text_elem
members_of-holds k v [] = refl
members_of-holds k v ((j, u) ∷ sets) = elim (Bool-cases (text_eq k j)) [
  | inl e ↦ rw e (ap (λ (b : Bool). text_eq v u || b) (members_of-holds k v sets))
  | inr e ↦ rw e (members_of-holds k v sets)
]

additions-queued :
    (cs : List Command) (sets : List (Text × Text)) (j v : Text)
    → holds (additions cs ++ sets) j v ≡ (queued j v cs || holds sets j v)
unfolding additions holds queued
additions-queued [] sets j v = refl
additions-queued (sadd k u ∷ cs) sets j v = ground (arith, additions-queued cs sets j v)
additions-queued (expire k t ∷ cs) sets j v = additions-queued cs sets j v
additions-queued (incrby k n ∷ cs) sets j v = additions-queued cs sets j v
additions-queued (hincrby k f n ∷ cs) sets j v = additions-queued cs sets j v

pub memory_sets : SetLaws memory
memory_sets = record {
  member = λ (w : Memory). holds w.sets;
  smembers_content = λ k w ms e v. rw (← ok-injective e) (members_of-holds k v w.sets);
  smembers_keeps = λ k w j v. refl;
  execute_adds = λ cs w e j v. additions-queued cs w.sets j v;
}

holds-new : (k v : Text) (sets : List (Text × Text)) → holds ((k, v) ∷ sets) k v ≡ true
unfolding holds
holds-new k v sets = rw (text_eq_refl k, text_eq_refl v) refl

holds-more :
    (j u k v : Text) (sets : List (Text × Text))
    → holds sets k v ≡ true
    → holds ((j, u) ∷ sets) k v ≡ true
unfolding holds
holds-more j u k v sets h = ground arith

pub memory_scripts : ScriptLaws memory
memory_scripts = record {
  eval_runs = λ f w n e. ap (λ (m : ℕ). (m, (f w).1)) (ok-injective e);
  eval_world = λ f w. inr refl;
  sadd_keeps = λ k u v w h. holds-more k v k u w.sets h;
  sadd_adds = λ k v w. holds-new k v w.sets;
  xadd_keeps = λ k v stream n fields w. refl;
  incr_keeps = λ k v counter n w. refl;
}
