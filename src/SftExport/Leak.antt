-- ===== src/SftExport/Leak.antt =====
-- About the connection of an instruction export.
use webspider.Prelude.{
  ℕ, suc, ◌≡◌, ◌⊎◌, inl, inr, refl, ◌∙◌, Bool, true, false, List, Text, if◌then◌else◌,
}
use webspider.Services.Keeps.{Spares}
use webspider.Outcome.{ok, raise, system_exit}
use webspider.Action.{Action, lift, ◌>>=◌, ◌>>◌, finally, continue}
use webspider.Action.Borrowing.{Pool}
use webspider.Action.Sparing.{Spares-bind, Spares-pure}
use webspider.SftExport.{Record}
use webspider.SftExport.Run.{Source, supported, export_posts, checked, export_run}

module _ (sr : Source) (lower : Text → Text) (min_quality min_answer_chars : ℕ) (out : sr.World → ℕ)
    (pool : Pool sr.get_conn sr.put_conn out) (posts-Spares : Spares out sr.posts) where
  export_posts-Spares :
      (fmt : Text) → Spares out (export_posts sr lower min_quality min_answer_chars fmt)
  unfolding export_posts
  export_posts-Spares fmt = Spares-bind _ _ posts-Spares (λ posts. Spares-pure _)

  -- What is left of a connection that was just taken, by the format.
  checked-out :
      (fmt : Text) (w : sr.World) (n : ℕ)
      → out w ≡ suc n
      → ((supported fmt ≡ true) × (out (checked sr lower min_quality min_answer_chars fmt w).1 ≡ n))
        ⊎ ((supported fmt ≡ false)
            × ((checked sr lower min_quality min_answer_chars fmt w).0 ≡ raise system_exit)
            × (out (checked sr lower min_quality min_answer_chars fmt w).1 ≡ suc n))
  unfolding checked finally lift
  checked-out fmt w n h = by (supported fmt) refl
    where
      body : Action sr.World (List (Text × Record))
      body = export_posts sr lower min_quality min_answer_chars fmt

      Checked : Bool → Action sr.World (List (Text × Record))
      Checked b = if b then finally body sr.put_conn else lift (raise system_exit)

      by :
          (b : Bool)
          → supported fmt ≡ b
          → ((b ≡ true) × (out (Checked b w).1 ≡ n))
            ⊎ ((b ≡ false) × ((Checked b w).0 ≡ raise system_exit) × (out (Checked b w).1 ≡ suc n))
      by true e = inl (refl, pool.returned (body w).1 n ((export_posts-Spares fmt).at w ∙ h))
      by false e = inr (refl, refl, h)

  -- Where the pool gives a connection, an export in a supported format gives it back, also when it
  -- raises; with another format the export exits with the connection still checked out.
  pub export_run-out :
      (fmt : Text) (w : sr.World)
      → (sr.get_conn w).0 ≡ ok tt
      → ((supported (lower fmt) ≡ true)
          × (out (export_run sr lower min_quality min_answer_chars fmt w).1 ≡ out w))
        ⊎ ((supported (lower fmt) ≡ false)
            × ((export_run sr lower min_quality min_answer_chars fmt w).0 ≡ raise system_exit)
            × (out (export_run sr lower min_quality min_answer_chars fmt w).1 ≡ suc (out w)))
  unfolding export_run ◌>>◌ ◌>>=◌ continue
  export_run-out fmt w e = rw e (checked-out (lower fmt) (sr.get_conn w).1 (out w) (pool.given w e))
