-- ===== src/Run/Attempts.antt =====
-- The attempts of a run through every reconciliation: their numbers and how many there can be.
use burrito.Base.{
  ℕ, ◌+◌, ◌≤◌, ◌<◌, ◌≡◌, refl, subst, inl, inr, true, false, List, [], ◌∷◌, ◌++◌, arith, length,
  ◌==◌,
}
use burrito.Base.Int.{ℤ, pos_part}
use burrito.Api.{Attempt, TerraformLayer, TerraformRepository, TerraformRun}
use burrito.World.{World, Runtime, Config}
use burrito.Run.Conditions.{has_status, has_reached_retry_limit, get_max_retries}
use burrito.Run.States.{
  State, initial, retrying, RunInfo, get_run_info, get_state, handle, get_state_string,
}
use burrito.Run.Logs.{upload_attempt, upload_logs}
use burrito.Run.Reconcile.{add_attempt, advance, settle}
use burrito.Run.Launch.{Answers, handle-Answers}

-- The numbers go up strictly, from `lo` on and below `hi`.
abbrev pub Within : ℕ → ℕ → List Attempt → Type 0
Within lo hi [] = lo ≤ hi
Within lo hi (a ∷ attempts) = (lo ≤ a.number) × Within (a.number + 1) hi attempts

Within-append :
    (lo hi n : ℕ) (attempts : List Attempt) (a : Attempt)
    → Within lo hi attempts
    → hi ≤ a.number
    → a.number < n
    → Within lo n (attempts ++ a ∷ [])
Within-append lo hi n [] a h p q = omega arith
Within-append lo hi n (b ∷ attempts) a h p q =
    (h.0, Within-append (b.number + 1) hi n attempts a h.1 p q)

Within-le :
    (lo hi n : ℕ) (attempts : List Attempt) → Within lo hi attempts → hi ≤ n → Within lo n attempts
Within-le lo hi n [] h p = omega arith
Within-le lo hi n (b ∷ attempts) h p = (h.0, Within-le (b.number + 1) hi n attempts h.1 p)

length-Within :
    (lo hi : ℕ) (attempts : List Attempt) → Within lo hi attempts → lo + length attempts ≤ hi
length-Within lo hi [] h = omega arith
length-Within lo hi (a ∷ attempts) h = omega (arith, length-Within (a.number + 1) hi attempts h.1)

-- What holds of a run between two reconciliations, under a retry limit.
pub record Inv (limit : ℤ) (run : TerraformRun) : Type 0 where
  pub numbered : Within 0 (run.status.retries + 1) run.status.attempts
  pub fresh : (run.status.state == "") ≡ true → run.status.attempts ≡ []
  pub capped : run.status.retries ≤ pos_part limit

module _ (w : World) (run : TerraformRun) where
  upload_logs-Within :
      (lo hi : ℕ) (attempts : List Attempt) (s : w.State)
      → Within lo hi attempts
      → Within lo hi (upload_logs w run attempts s).0.0
  unfolding upload_logs
  upload_logs-Within lo hi [] s h = h
  upload_logs-Within lo hi (a ∷ attempts) s h =
      let s' = (upload_attempt w run a s).1 in
      let ih = upload_logs-Within (a.number + 1) hi attempts s' h.1 in ground arith

-- `getStateString` is never the empty string of a run with no status.
state_string_ne : (state : State) → (get_state_string state == "") ≡ false
unfolding get_state_string
state_string_ne initial = refl
state_string_ne _ = refl

module _ (cfg : Config) (rt : Runtime) (w : World) where
  initial_is_fresh :
      (run : TerraformRun) (layer : TerraformLayer) (repo : TerraformRepository) (s : w.State)
      → (get_state cfg rt w s run layer repo).0 ≡ initial
      → (run.status.state == "") ≡ true
  unfolding get_state has_status
  initial_is_fresh run layer repo s h = ground arith

  retrying_below_limit :
      (run : TerraformRun) (layer : TerraformLayer) (repo : TerraformRepository) (s : w.State)
      → (get_state cfg rt w s run layer repo).0 ≡ retrying
      → run.status.retries < pos_part (get_max_retries cfg.terraform_max_retries repo layer)
  unfolding get_state has_reached_retry_limit
  retrying_below_limit run layer repo s h = ground arith

-- The new attempts and retries, from what the state may answer.
module _ (limit : ℤ) (run : TerraformRun) (info : RunInfo) (h : Inv limit run) where
  kept_info :
      info ≡ get_run_info run
      → Within 0 (info.retries + 1) (add_attempt info run.status.attempts)
        × (info.retries ≤ pos_part limit)
  unfolding get_run_info add_attempt
  kept_info e = rw e (h.numbered, h.capped)

  first_info :
      run.status.attempts ≡ []
      → Answers initial run info
      → Within 0 (info.retries + 1) (add_attempt info run.status.attempts)
        × (info.retries ≤ pos_part limit)
  unfolding add_attempt
  first_info e (inl p) = rw (e, p) (omega arith, omega arith)
  first_info e (inr (new, n)) = rw (e, new, n) ((omega arith, omega arith), omega arith)

  next_info :
      run.status.retries < pos_part limit
      → Answers retrying run info
      → Within 0 (info.retries + 1) (add_attempt info run.status.attempts)
        × (info.retries ≤ pos_part limit)
  unfolding add_attempt
  next_info below (inl p) = kept_info p
  next_info below (inr (new, n)) =
      rw (new, n)
        (
          Within-append 0 (run.status.retries + 1) (run.status.retries + 1 + 1) run.status.attempts
              _ h.numbered (omega arith) (omega arith),
          omega arith,
        )

  answered :
      (state : State)
      → (state ≡ initial → run.status.attempts ≡ [])
      → (state ≡ retrying → run.status.retries < pos_part limit)
      → Answers state run info
      → Within 0 (info.retries + 1) (add_attempt info run.status.attempts)
        × (info.retries ≤ pos_part limit)
  answered initial first below a = first_info (first refl) a
  answered retrying first below a = next_info (below refl) a
  answered _ first below a = kept_info a

module _ (cfg : Config) (rt : Runtime) (w : World) (layer : TerraformLayer)
    (repo : TerraformRepository) where
  abbrev limit_of : ℤ
  limit_of = get_max_retries cfg.terraform_max_retries repo layer

  advance-Inv :
      (run : TerraformRun) (s : w.State)
      → Inv limit_of run
      → Inv limit_of (advance cfg rt w run layer repo s).0.1
  unfolding advance
  advance-Inv run s h =
      let state = (get_state cfg rt w s run layer repo).0 in
      let answer = (handle cfg rt w state run layer repo s).0 in
      let facts =
        answered limit_of run answer.1 h state
          (λ e. h.fresh (initial_is_fresh cfg rt w run layer repo s e))
          (retrying_below_limit cfg rt w run layer repo s)
          (handle-Answers cfg rt w state run layer repo s) in
      record { numbered = facts.0; fresh = λ e. cc (state_string_ne state); capped = facts.1 }

  advance_has_state :
      (run : TerraformRun) (s : w.State)
      → ((advance cfg rt w run layer repo s).0.1.status.state == "") ≡ false
  unfolding advance
  advance_has_state run s = state_string_ne (get_state cfg rt w s run layer repo).0

  pub settle-Inv :
      (run : TerraformRun) (s : w.State)
      → Inv limit_of run
      → Inv limit_of (settle cfg rt w run layer repo s).0.1
  unfolding settle
  settle-Inv run s h =
      let step = advance cfg rt w run layer repo s in
      let new = advance-Inv run s h in
      record {
        numbered =
            upload_logs-Within w step.0.1 0 (step.0.1.status.retries + 1) step.0.1.status.attempts
              step.1 new.numbered;
        fresh = λ e. cc (advance_has_state run s);
        capped = new.capped;
      }

-- The lives of a run under one retry limit: it is created with no status, and then reconciled any
-- number of times, each time in any state of the world, and with any layer and repository that set
-- this limit.
module _ (cfg : Config) (rt : Runtime) (w : World) (limit : ℤ) where
  pub data History : TerraformRun → Type 0 where
    created : (run : TerraformRun) → run.status.attempts ≡ [] → run.status.retries ≡ 0 → History run
    reconciled :
        {run : TerraformRun} (layer : TerraformLayer) (repo : TerraformRepository) (s : w.State)
        → get_max_retries cfg.terraform_max_retries repo layer ≡ limit
        → History run
        → History (settle cfg rt w run layer repo s).0.1

  pub History-Inv : {run : TerraformRun} → History run → Inv limit run
  History-Inv (created run empty start) = record {
    numbered = rw (empty, start) (omega arith);
    fresh = λ _. empty;
    capped = omega (arith, start);
  }
  History-Inv (reconciled {run = run} layer repo s e h) =
      subst (λ l. Inv l (settle cfg rt w run layer repo s).0.1) e
        (settle-Inv cfg rt w layer repo run s (rw e (History-Inv h)))

  -- Whatever the pods do and whatever calls fail, a run whose retry limit stays the same has at
  -- every point of its life attempts with strictly increasing numbers from 0 to its retries, its
  -- retries never pass the limit (0 for a negative one), and it has at most one attempt more than
  -- that.
  pub attempts_bounded :
      {run : TerraformRun}
      → History run
      → Within 0 (run.status.retries + 1) run.status.attempts
        × (run.status.retries ≤ pos_part limit)
        × (length run.status.attempts ≤ pos_part limit + 1)
  attempts_bounded {run} h =
      let inv = History-Inv h in
      (
        inv.numbered,
        inv.capped,
        omega (arith, length-Within 0 (run.status.retries + 1) run.status.attempts inv.numbered),
      )
