-- ===== src/Notifications/Batches.antt =====
-- notifications.go, `CreateMany`: the statements hold the recipients, each statement at most a hundred.
use leadflow_v3_server.Base.{
  ℕ, zero, suc, ◌≤◌, String, Bool, false, ◌||◌, List, [], ◌∷◌, ◌++◌, ◌==◌, ◌≡◌, refl, ap, ◌∙◌, keep,
  map, length, take, drop, joined, All, trim_space, trim_space_idem, Bool-cases, inl, inr, arith,
}
use leadflow_v3_server.Notifications.{NotificationRow, batch, batches, send, merge_loop, is_member}

-- An id without space around it, which is not blank.
abbrev pub IsTrimmed : String → Type 0
IsTrimmed id = (trim_space id ≡ id) × ((id == "") ≡ false)

pub merge_loop-IsTrimmed : (seen ids : List String) → All IsTrimmed (merge_loop seen ids)
unfolding merge_loop
merge_loop-IsTrimmed seen [] = tt
merge_loop-IsTrimmed seen (x ∷ xs) =
    elim (Bool-cases (trim_space x == "" || is_member (trim_space x) seen)) [
      | inl b ↦ rw b (merge_loop-IsTrimmed seen xs)
      | inr b ↦ rw b (
        (trim_space_idem x, left (trim_space x == "") _ b),
        merge_loop-IsTrimmed (trim_space x ∷ seen) xs,
      )
    ]
  where
    left : (a b : Bool) → (a || b) ≡ false → a ≡ false
    left a b h = ground arith

pub keep-IsTrimmed :
    (p : String → Bool) (ids : List String) → All IsTrimmed ids → All IsTrimmed (keep p ids)
keep-IsTrimmed p [] a = tt
keep-IsTrimmed p (x ∷ xs) a = elim (Bool-cases (p x)) [
  | inl e ↦ rw e (a.0, keep-IsTrimmed p xs a.1)
  | inr e ↦ rw e (keep-IsTrimmed p xs a.1)
]

take_then_drop {ℓ} : {A : Type ℓ} (n : ℕ) (xs : List A) → take n xs ++ drop n xs ≡ xs
take_then_drop zero xs = refl
take_then_drop (suc n) [] = refl
take_then_drop (suc n) (x ∷ xs) = ap (λ ys. x ∷ ys) (take_then_drop n xs)

length-take_le {ℓ} : {A : Type ℓ} (n : ℕ) (xs : List A) → length (take n xs) ≤ n
length-take_le zero xs = omega arith
length-take_le (suc n) [] = omega arith
length-take_le (suc n) (x ∷ xs) = omega (arith, length-take_le n xs)

length-drop_le {ℓ} : {A : Type ℓ} (n : ℕ) (xs : List A) → length (drop n xs) ≤ length xs
length-drop_le zero xs = omega arith
length-drop_le (suc n) [] = omega arith
length-drop_le (suc n) (x ∷ xs) = omega (arith, length-drop_le n xs)

split_ids :
    (n : ℕ) (ids : List String)
    → All IsTrimmed ids
    → All IsTrimmed (take n ids) × All IsTrimmed (drop n ids)
split_ids zero ids a = (tt, a)
split_ids (suc n) [] a = (tt, tt)
split_ids (suc n) (x ∷ xs) a = let h = split_ids n xs a.1 in ((a.0, h.0), h.1)

joined-send :
    (rows : List NotificationRow) (rest : List (List NotificationRow))
    → joined (send rows rest) ≡ rows ++ joined rest
joined-send [] rest = refl
joined-send (r ∷ rows) rest = refl

abbrev pub recipients : List NotificationRow → List String
recipients rows = map (λ r. r.recipient_id) rows

recipients-append :
    (xs ys : List NotificationRow) → recipients (xs ++ ys) ≡ recipients xs ++ recipients ys
recipients-append [] ys = refl
recipients-append (x ∷ xs) ys = ap (λ ids. x.recipient_id ∷ ids) (recipients-append xs ys)

module _ (row : String → NotificationRow) (names : (id : String) → (row id).recipient_id ≡ id) where
  batch-recipients : (ids : List String) → All IsTrimmed ids → recipients (batch row ids) ≡ ids
  unfolding batch
  batch-recipients [] a = refl
  batch-recipients (id ∷ ids) a =
      rw a.0.0 (rw a.0.1 (rw (names id) (ap (λ rest. id ∷ rest) (batch-recipients ids a.1))))

  length-batch : (ids : List String) → length (batch row ids) ≤ length ids
  unfolding batch
  length-batch [] = omega arith
  length-batch (id ∷ ids) = elim (Bool-cases (trim_space id == "")) [
    | inl e ↦ rw e (omega (arith, length-batch ids))
    | inr e ↦ rw e (omega (arith, length-batch ids))
  ]

  pub batches-recipients :
      (turns : ℕ) (ids : List String)
      → length ids ≤ turns
      → All IsTrimmed ids
      → recipients (joined (batches turns row ids)) ≡ ids
  unfolding batches
  batches-recipients zero [] h a = refl
  batches-recipients zero (id ∷ ids) h a = absurd (omega arith)
  batches-recipients (suc turns) [] h a = refl
  batches-recipients (suc turns) (id ∷ ids) h a =
      let parts = split_ids 100 (id ∷ ids) a in
      let first = batch row (take 100 (id ∷ ids)) in
      let later = batches turns row (drop 100 (id ∷ ids)) in
      ap recipients (joined-send first later)
      ∙ (recipients-append first (joined later)
          ∙ (ap (λ xs. xs ++ recipients (joined later))
                (batch-recipients (take 100 (id ∷ ids)) parts.0)
              ∙ (ap (λ ys. take 100 (id ∷ ids) ++ ys)
                    (batches-recipients turns (drop 100 (id ∷ ids))
                      (omega (arith, length-drop_le 99 ids)) parts.1)
                  ∙ take_then_drop 100 (id ∷ ids))))

  abbrev IsSmall : List NotificationRow → Type 0
  IsSmall rows = length rows ≤ 100

  send-IsSmall :
      (rows : List NotificationRow) (rest : List (List NotificationRow))
      → IsSmall rows
      → All IsSmall rest
      → All IsSmall (send rows rest)
  send-IsSmall [] rest h a = a
  send-IsSmall (r ∷ rows) rest h a = (h, a)

  pub batches-IsSmall :
      (turns : ℕ) (ids : List String) → All (λ rows. length rows ≤ 100) (batches turns row ids)
  unfolding batches
  batches-IsSmall zero ids = tt
  batches-IsSmall (suc turns) [] = tt
  batches-IsSmall (suc turns) (id ∷ ids) =
      send-IsSmall (batch row (take 100 (id ∷ ids))) (batches turns row (drop 100 (id ∷ ids)))
        (omega (arith, length-batch (take 100 (id ∷ ids)), length-take_le 100 (id ∷ ids)))
        (batches-IsSmall turns (drop 100 (id ∷ ids)))
