-- ===== src/Leads/Pages/Samples.antt =====
-- leads.go, `List`: texts that stand for times, amounts and cursors, and are read back.
use Prim.Native.Char.{Char, code}
use leadflow_v3_server.Base.{
  ℕ, zero, suc, String, Bool, true, false, ◌&&◌, ◌||◌, List, [], ◌∷◌, ◌==◌, ◌≡◌, refl, sym, ap, ◌∙◌,
  ltb, eqb, inl, inr, trim_space, text-cases, false≢true, Option, none, some, codes, if◌then◌else◌,
}
use leadflow_v3_server.Base.{ℤ, pos, negsuc}
use leadflow_v3_server.Base.{trim_left, trim_right, is_space}
use leadflow_v3_server.Leads.Pages.{LeadCursor, Texts}
use leadflow_v3_server.Leads.Pages.Order.{TextLaws}
use leadflow_v3_server.Leads.Pages.Strict.{both_ways, numbers_strict, numbers_tied}

abbrev ticks : ℕ → String
ticks zero = String.[]
ticks (suc n) = String.◌∷◌ "t" (ticks n)

abbrev size : String → ℕ
size String.[] = 0
size (String.◌∷◌ c s) = suc (size s)

size-ticks : (n : ℕ) → size (ticks n) ≡ n
size-ticks zero = refl
size-ticks (suc n) = ap (λ k. suc k) (size-ticks n)

abbrev read_time : String → Option ℕ
read_time String.[] = none
read_time (String.◌∷◌ c s) = some (size s)

abbrev write_deal : ℤ → String
write_deal (pos n) = String.◌∷◌ "+" (ticks n)
write_deal (negsuc n) = String.◌∷◌ "-" (ticks n)

abbrev read_deal : String → Option ℤ
read_deal String.[] = none
read_deal (String.◌∷◌ c s) = some (if eqb (code c) b'+' then pos (size s) else negsuc (size s))

abbrev quote : String → String → String
quote String.[] rest = String.◌∷◌ "y" rest
quote (String.◌∷◌ c s) rest = String.◌∷◌ "x" (String.◌∷◌ c (quote s rest))

abbrev pushed : Char → Option (String × String) → Option (String × String)
pushed c none = none
pushed c (some (s, rest)) = some (String.◌∷◌ c s, rest)

abbrev unquote : String → Option (String × String)
unquote String.[] = none
unquote (String.◌∷◌ m String.[]) = if eqb (code m) b'y' then some ("", "") else none
unquote (String.◌∷◌ m (String.◌∷◌ c s)) =
    let more = unquote s in if eqb (code m) b'y' then some ("", String.◌∷◌ c s) else pushed c more

unquote-quote : (s rest : String) → unquote (quote s rest) ≡ some (s, rest)
unquote-quote String.[] String.[] = refl
unquote-quote String.[] (String.◌∷◌ c rest) = refl
unquote-quote (String.◌∷◌ c s) rest = ap (λ r. pushed c r) (unquote-quote s rest)

abbrev write_cursor : LeadCursor → String
write_cursor c = quote c.sort (quote c.t (quote c.id (quote c.n (quote c.v (quote c.k "")))))

abbrev bind : Option (String × String) → (String → String → Option LeadCursor) → Option LeadCursor
bind none f = none
bind (some (s, rest)) f = f s rest

abbrev read_cursor : String → Option LeadCursor
read_cursor text = bind (unquote text) (λ sort r1. bind (unquote r1) (λ t r2.
    bind (unquote r2) (λ id r3. bind (unquote r3) (λ n r4. bind (unquote r4) (λ v r5.
      bind (unquote r5)
        (λ k r6. some (record { sort = sort; t = t; id = id; n = n; v = v; k = k })))))))

read-write : (c : LeadCursor) → read_cursor (write_cursor c) ≡ some c
read-write c =
    rw (unquote-quote c.sort (quote c.t (quote c.id (quote c.n (quote c.v (quote c.k "")))))) (
      rw (unquote-quote c.t (quote c.id (quote c.n (quote c.v (quote c.k ""))))) (
        rw (unquote-quote c.id (quote c.n (quote c.v (quote c.k "")))) (
          rw (unquote-quote c.n (quote c.v (quote c.k "")))
            (rw (unquote-quote c.v (quote c.k "")) (rw (unquote-quote c.k "") refl)))))

abbrev filled : String → Bool
filled String.[] = false
filled (String.◌∷◌ c s) = true

filled-ne : (s : String) → filled s ≡ true → (s == "") ≡ false
filled-ne s h = elim (text-cases s "") [
  | inl e ↦ absurd (false≢true (ap filled (sym e) ∙ h))
  | inr e ↦ e
]

trim-quote : (s rest : String) → filled (trim_space (quote s rest)) ≡ true
unfolding trim_space trim_left trim_right is_space
trim-quote String.[] rest = refl
trim-quote (String.◌∷◌ c s) rest = refl

abbrev before : List ℕ → List ℕ → Bool
before [] [] = false
before [] (y ∷ ys) = true
before (x ∷ xs) [] = false
before (x ∷ xs) (y ∷ ys) = ltb x y || (eqb y x && before xs ys)

before-asym : (xs ys : List ℕ) → before xs ys ≡ true → before ys xs ≡ false
before-asym [] [] h = refl
before-asym [] (y ∷ ys) h = refl
before-asym (x ∷ xs) [] h = absurd (false≢true h)
before-asym (x ∷ xs) (y ∷ ys) h =
    both_ways (ltb x y) (eqb y x) (before xs ys) (ltb y x) (eqb x y) (before ys xs)
      (numbers_strict x y) (λ e. (numbers_tied x y e).0) (before-asym xs ys) h

abbrev pub plain_texts : Texts
plain_texts = record {
  lower = λ s. s;
  lower_sql = λ s. s;
  less = λ s t. before (codes s) (codes t);
  format_time = λ n. String.◌∷◌ "t" (ticks n);
  parse_time = read_time;
  format_deal = write_deal;
  parse_deal = read_deal;
  encode = write_cursor;
  decode = read_cursor;
}

pub plain_texts-TextLaws : TextLaws plain_texts
plain_texts-TextLaws = record {
  less_asym = λ s t h. before-asym (codes s) (codes t) h;
  time_round = λ t. ap (λ n. some n) (size-ticks t);
  time_written = λ t. filled-ne _ refl;
  deal_round = deal_round;
  deal_written = deal_written;
  cursor_round = read-write;
  cursor_written = λ c. filled-ne _ (trim-quote c.sort _);
}
  where
    deal_round : (d : ℤ) → read_deal (write_deal d) ≡ some d
    deal_round (pos n) = ap (λ k. some (pos k)) (size-ticks n)
    deal_round (negsuc n) = ap (λ k. some (negsuc k)) (size-ticks n)

    deal_written : (d : ℤ) → (write_deal d == "") ≡ false
    deal_written (pos n) = filled-ne _ refl
    deal_written (negsuc n) = filled-ne _ refl
