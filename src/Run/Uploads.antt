-- ===== src/Run/Uploads.antt =====
-- What the log upload does to the attempts of a run.
use burrito.Base.{◌≡◌, refl, subst, ◌⊎◌, inl, inr, true, false, List, [], ◌∷◌, arith, Bool-cases}
use burrito.Api.{Attempt, TerraformRun}
use burrito.World.{World}
use burrito.Run.Logs.{Upload, skip, mark, stop, upload_attempt, upload_logs}

Upload-cases : (u : Upload) → (u ≡ skip) ⊎ ((u ≡ mark) ⊎ (u ≡ stop))
Upload-cases skip = inl refl
Upload-cases mark = inr (inl refl)
Upload-cases stop = inr (inr refl)

-- Attempt by attempt, the second list is the first with some attempts marked as uploaded.
abbrev pub Marks : List Attempt → List Attempt → Type 0
Marks [] [] = Unit
Marks [] (b ∷ after) = ⊥
Marks (a ∷ before) [] = ⊥
Marks (a ∷ before) (b ∷ after) =
    ((b ≡ a) ⊎ ((a.logs_uploaded ≡ false) × (b ≡ record a { logs_uploaded = true })))
    × Marks before after

Marks-refl : (attempts : List Attempt) → Marks attempts attempts
Marks-refl [] = tt
Marks-refl (a ∷ attempts) = (inl refl, Marks-refl attempts)

module _ (w : World) (run : TerraformRun) where
  marked_is_new :
      (a : Attempt) (s : w.State) → (upload_attempt w run a s).0 ≡ mark → a.logs_uploaded ≡ false
  unfolding upload_attempt
  marked_is_new a s h = elim (Bool-cases a.logs_uploaded) [
    | inr new ↦ new
    | inl old ↦ cc (rw old at h)
  ]

  after_skip :
      (a : Attempt) (attempts : List Attempt) (s : w.State)
      → (upload_attempt w run a s).0 ≡ skip
      → a ∷ (upload_logs w run attempts (upload_attempt w run a s).1).0.0
        ≡ (upload_logs w run (a ∷ attempts) s).0.0
  unfolding upload_logs
  after_skip a attempts s e = ground (arith, e)

  after_mark :
      (a : Attempt) (attempts : List Attempt) (s : w.State)
      → (upload_attempt w run a s).0 ≡ mark
      → record a { logs_uploaded = true }
          ∷ (upload_logs w run attempts (upload_attempt w run a s).1).0.0
        ≡ (upload_logs w run (a ∷ attempts) s).0.0
  unfolding upload_logs
  after_mark a attempts s e = ground (arith, e)

  after_stop :
      (a : Attempt) (attempts : List Attempt) (s : w.State)
      → (upload_attempt w run a s).0 ≡ stop
      → a ∷ attempts ≡ (upload_logs w run (a ∷ attempts) s).0.0
  unfolding upload_logs
  after_stop a attempts s e = ground (arith, e)

  -- Whatever calls fail, the upload of logs only marks attempts whose logs were not uploaded; it
  -- loses, adds and changes none.
  pub upload_logs-Marks :
      (attempts : List Attempt) (s : w.State) → Marks attempts (upload_logs w run attempts s).0.0
  unfolding upload_logs
  upload_logs-Marks [] s = tt
  upload_logs-Marks (a ∷ attempts) s = elim (Upload-cases (upload_attempt w run a s).0) [
    | inl e ↦
        subst (Marks (a ∷ attempts)) (after_skip a attempts s e)
          (inl refl, upload_logs-Marks attempts (upload_attempt w run a s).1)
    | inr (inl e) ↦
        subst (Marks (a ∷ attempts)) (after_mark a attempts s e)
          (inr (marked_is_new a s e, refl), upload_logs-Marks attempts (upload_attempt w run a s).1)
    | inr (inr e) ↦
        subst (Marks (a ∷ attempts)) (after_stop a attempts s e) (inl refl, Marks-refl attempts)
  ]
