-- ===== src/Daemon/Store/Listed.antt =====
-- List of internal/store/store.go inside a loop that puts: what the loop reads is still there.
use herdr_woof.Prelude.{
  ℕ, ◌<◌, ◌≤◌, ◌≡◌, sym, ◌∙◌, subst, Bool, true, false, some, List, [], ◌∷◌, arith, if◌then◌else◌,
}
use herdr_woof.Daemon.Store.{Table, find, list}
use herdr_woof.Daemon.Store.Rows.{Above}

module _ {ℓ} {A : Type ℓ} (id_of : A → ℕ) where
  -- A list read from the table before the loop: each of its records still stands there, and the ids
  -- go up.
  abbrev pub Listed : Table A → ℕ → List A → Type ℓ
  Listed rows low [] = Unit
  Listed rows low (d ∷ ds) =
      (low < id_of d) × (find rows (id_of d) ≡ some d) × Listed rows (id_of d) ds

  pub Listed-other :
      (rows rows' : Table A) (low : ℕ) (ds : List A)
      → ((j : ℕ) → low < j → find rows' j ≡ find rows j)
      → Listed rows low ds
      → Listed rows' low ds
  Listed-other rows rows' low [] same h = tt
  Listed-other rows rows' low (d ∷ ds) same (p, q, r) = (
    p,
    same (id_of d) p ∙ q,
    Listed-other rows rows' (id_of d) ds (λ j k. same j (omega (arith, k, p))) r,
  )

  pub Listed-low :
      (rows : Table A) (low low' : ℕ) (ds : List A)
      → low' ≤ low
      → Listed rows low ds
      → Listed rows low' ds
  Listed-low rows low low' [] h k = tt
  Listed-low rows low low' (d ∷ ds) h (p, q, r) = (omega (arith, h, p), q, r)

  if-Listed :
      (rows : Table A) (low : ℕ) (b : Bool) (d : A) (ds : List A)
      → Listed rows low (d ∷ ds)
      → Listed rows low ds
      → Listed rows low (if b then d ∷ ds else ds)
  if-Listed rows low true d ds h k = h
  if-Listed rows low false d ds h k = k

  find_skip :
      (k : ℕ) (d : A) (rows : Table A) (j : ℕ) → k < j → find ((k, d) ∷ rows) j ≡ find rows j
  unfolding find
  find_skip k d rows j h = ground arith

  find_head : (k : ℕ) (d : A) (rows : Table A) → find ((k, d) ∷ rows) k ≡ some d
  unfolding find
  find_head k d rows = ground arith

  pub list-Listed :
      (keep : A → Bool) (rows : Table A) (low : ℕ)
      → Above low rows
      → ((id : ℕ) (d : A) → low < id → find rows id ≡ some d → id_of d ≡ id)
      → Listed rows low (list keep rows)
  unfolding list
  list-Listed keep [] low h named = tt
  list-Listed keep ((k, d) ∷ rows) low (p, h) named =
      let head = find_head k d rows in
      let same : id_of d ≡ k = named k d p head in
      let rest : Listed rows k (list keep rows) =
        list-Listed keep rows k h
          (λ id e q r. named id e (omega (arith, p, q)) (find_skip k d rows id q ∙ r)) in
      let rest' : Listed ((k, d) ∷ rows) k (list keep rows) =
        Listed-other rows ((k, d) ∷ rows) k (list keep rows) (λ j q. find_skip k d rows j q) rest in
      if-Listed ((k, d) ∷ rows) low (keep d) d (list keep rows)
        (
          omega (arith, p, same),
          subst (λ i. find ((k, d) ∷ rows) i ≡ some d) (sym same) head,
          subst (λ i. Listed ((k, d) ∷ rows) i (list keep rows)) (sym same) rest',
        )
        (Listed-low ((k, d) ∷ rows) k low (list keep rows) (omega (arith, p)) rest')
