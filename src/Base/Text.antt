-- ===== src/Base/Text.antt =====
-- Go's `strings` functions that the server calls, over a text as its list of code points. A text that is
-- no valid UTF-8 is outside this model.
use Prim.Native.Char.{code}
use Prim.Native.Nat.{ℕ}
use Prim.Native.String.{String}
use mathlib.Core.Path.{◌≡◌, refl}
use mathlib.Core.Bool.{Bool, true, false, ◌&&◌, ◌||◌}
use mathlib.Core.Option.{Option, none, some}
use mathlib.Core.List.{List, [], ◌∷◌}
use mathlib.Core.Logic.{inl, inr}
use leadflow_v3_server.Base.Tests.{leb, eqb, if◌then◌else◌, Bool-cases}

-- The code points of a text.
abbrev pub codes : String → List ℕ
codes String.[] = []
codes (String.◌∷◌ c s) = code c ∷ codes s

-- unicode.IsSpace
unfoldable pub is_space : ℕ → Bool
is_space c =
    (leb 9 c && leb c 13)
    || eqb c 32
    || eqb c 0x85
    || eqb c 0xa0
    || eqb c 0x1680
    || (leb 0x2000 c && leb c 0x200a)
    || eqb c 0x2028
    || eqb c 0x2029
    || eqb c 0x202f
    || eqb c 0x205f
    || eqb c 0x3000

abbrev is_empty : String → Bool
is_empty String.[] = true
is_empty (String.◌∷◌ c s) = false

unfoldable pub trim_left : String → String
unfolding is_space
trim_left String.[] = String.[]
trim_left (String.◌∷◌ c s) = if is_space (code c) then trim_left s else String.◌∷◌ c s

unfoldable pub trim_right : String → String
unfolding is_space
trim_right String.[] = String.[]
trim_right (String.◌∷◌ c s) =
    let rest = trim_right s in
    if is_space (code c) && is_empty rest then String.[] else String.◌∷◌ c rest

-- strings.TrimSpace
unfoldable pub trim_space : String → String
unfolding trim_left trim_right
trim_space s = trim_right (trim_left s)

-- The first character is no space.
abbrev Starts : String → Type 0
Starts String.[] = Unit
Starts (String.◌∷◌ c s) = is_space (code c) ≡ false

trim_left-Starts : (s : String) → Starts (trim_left s)
unfolding trim_left
trim_left-Starts String.[] = tt
trim_left-Starts (String.◌∷◌ c s) = elim (Bool-cases (is_space (code c))) [
  | inl e ↦ rw e (trim_left-Starts s)
  | inr e ↦ rw e e
]

trim_left-eq_of_Starts : (s : String) → Starts s → trim_left s ≡ s
unfolding trim_left
trim_left-eq_of_Starts String.[] h = refl
trim_left-eq_of_Starts (String.◌∷◌ c s) h = rw h

trim_right-Starts : (s : String) → Starts s → Starts (trim_right s)
unfolding trim_right
trim_right-Starts String.[] h = tt
trim_right-Starts (String.◌∷◌ c s) h = rw h h

trim_right_idem : (s : String) → trim_right (trim_right s) ≡ trim_right s
unfolding trim_right
trim_right_idem String.[] = refl
trim_right_idem (String.◌∷◌ c s) =
    elim (Bool-cases (is_space (code c) && is_empty (trim_right s))) [
      | inl e ↦ rw e
      | inr e ↦ rw (e, trim_right_idem s, e)
    ]

-- Trimming twice is trimming once.
pub trim_space_idem : (s : String) → trim_space (trim_space s) ≡ trim_space s
unfolding trim_space
trim_space_idem s =
    rw
      (trim_left-eq_of_Starts (trim_right (trim_left s))
        (trim_right-Starts (trim_left s) (trim_left-Starts s)))
      (trim_right_idem (trim_left s))

-- A pointer to a text, trimmed; `nil` is the empty text.
unfoldable pub trim_option : Option String → String
trim_option none = ""
trim_option (some s) = trim_space s

trim_space_test : trim_space "\t  abc d \n" ≡ "abc d"
unfolding trim_space is_space
trim_space_test = refl
