-- ===== src/Daemon/Store/Rows.antt =====
-- The tables of internal/store/store.go: what put and list give back.
use herdr_woof.Prelude.{
  ℕ, ◌<◌, ◌≡◌, ◌≢◌, ◌⊎◌, sym, ap, ◌∙◌, some, false, not, ◌||◌, [], ◌∷◌, ◌==◌, if◌then◌else◌, arith,
  Bool-cases, inl, inr,
}
use herdr_woof.Prelude.Result.{ok, refuse_passed}
use herdr_woof.Daemon.Model.{Code}
use herdr_woof.Daemon.Store.{Table, find, get, put, put_row}

module _ {ℓ} {A : Type ℓ} where
  -- The keys go up from above `low`.
  abbrev pub Above : ℕ → Table A → Type 0
  Above low [] = Unit
  Above low ((k, a) ∷ rows) = (low < k) × Above k rows

  pub some-inj : {x y : A} → some x ≡ some y → x ≡ y
  some-inj h = cc

  -- What is got is what was put last under that key.
  pub find-put_row :
      (rows : Table A) (id j : ℕ) (a : A)
      → find (put_row id a rows) j ≡ (if id == j then some a else find rows j)
  unfolding find put_row
  find-put_row [] id j a = ground arith
  find-put_row ((k, b) ∷ rows) id j a = ground (arith, find-put_row rows id j a)

  pub put_row_cases :
      (rows : Table A) (id j : ℕ) (a : A) {x : A}
      → find (put_row id a rows) j ≡ some x
      → ((id ≡ j) × (a ≡ x)) ⊎ ((id ≢ j) × (find rows j ≡ some x))
  put_row_cases rows id j a {x = x} h =
      let e : find (put_row id a rows) j ≡ (if id == j then some a else find rows j) =
        find-put_row rows id j a in
      elim (Bool-cases (id == j)) [
        | inl p ↦
            let q : (if id == j then some a else find rows j) ≡ some a =
              ap (λ b. if b then some a else find rows j) p in
            inl (ground arith, some-inj (sym q ∙ sym e ∙ h))
        | inr p ↦
            let q : (if id == j then some a else find rows j) ≡ find rows j =
              ap (λ b. if b then some a else find rows j) p in
            inr (ground arith, sym q ∙ sym e ∙ h)
      ]

  pub put_row-Above :
      (rows : Table A) (id low : ℕ) (a : A)
      → low < id
      → Above low rows
      → Above low (put_row id a rows)
  unfolding put_row
  put_row-Above [] id low a p h = (p, tt)
  put_row-Above ((k, b) ∷ rows) id low a p h = ground (arith, put_row-Above rows id k a)

  pub found : (rows : Table A) (id : ℕ) {a : A} → get rows id ≡ ok a → find rows id ≡ some a
  unfolding get
  found rows id h = ground arith

  -- A record that is put has its own id for its key, which is not empty.
  pub put_lem :
      (id record_id : ℕ) (a : A) (rows : Table A) {rows' : Table A}
      → put id record_id a rows ≡ ok rows'
      → (id ≢ 0) × (record_id ≡ id) × (rows' ≡ put_row id a rows)
  unfolding put
  put_lem id record_id a rows h =
      let (p, q) =
        refuse_passed (id == 0 || not (record_id == id)) Code.invalid_record
          (ok (put_row id a rows)) h in
      ground (arith, p, q)

  -- What was put is got.
  pub put-get :
      (id record_id : ℕ) (a : A) (rows rows' : Table A)
      → put id record_id a rows ≡ ok rows'
      → get rows' id ≡ ok a
  unfolding get
  put-get id record_id a rows rows' h =
      let (_, _, e) = put_lem id record_id a rows h in
      let f : find rows' id ≡ some a =
        ap (λ t. find t id) e ∙ find-put_row rows id id a ∙ ground arith in
      ground (arith, f)

  pub put-find_other :
      (id record_id : ℕ) (a : A) (rows rows' : Table A) (j : ℕ)
      → put id record_id a rows ≡ ok rows'
      → id ≢ j
      → find rows' j ≡ find rows j
  put-find_other id record_id a rows rows' j h other =
      let (_, _, e) = put_lem id record_id a rows h in
      let differs : (id == j) ≡ false = ground arith in
      ap (λ t. find t j) e
      ∙ find-put_row rows id j a
      ∙ ap (λ b. if b then some a else find rows j) differs

  pub put-get_other :
      (id record_id : ℕ) (a : A) (rows rows' : Table A) (j : ℕ)
      → put id record_id a rows ≡ ok rows'
      → id ≢ j
      → get rows' j ≡ get rows j
  unfolding get
  put-get_other id record_id a rows rows' j h other =
      ground (arith, put-find_other id record_id a rows rows' j h other)
