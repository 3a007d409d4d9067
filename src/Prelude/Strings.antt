-- ===== src/Prelude/Strings.antt =====
-- Texts as lists of code units, with the methods of JavaScript strings that the code calls.
use Prim.Native.Nat.{ℕ, ◌-◌}
use mathlib.Core.Path.{◌≡◌, refl}
use mathlib.Core.Logic.{inl, inr}
use mathlib.Core.Bool.{Bool, true, false, ◌&&◌, ◌||◌}
use mathlib.Core.List.{List, [], ◌∷◌, ◌++◌}
use stablecoin_treasury.Prelude.Tests.{◌==◌, if◌then◌else◌, ==_refl, ==_iff, Bool-cases, leb}
use stablecoin_treasury.Prelude.Lists.{All}

abbrev pub Text : Type 0
Text = List ℕ

-- White space, for `trim` and for `\s` of a regular expression.
abbrev pub is_space : ℕ → Bool
is_space c =
    leb 9 c && leb c 13
    || c == 32
    || c == 160
    || c == 5760
    || leb 8192 c && leb c 8202
    || c == 8232
    || c == 8233
    || c == 8239
    || c == 8287
    || c == 12288
    || c == 65279

-- `===` of texts.
unfoldable pub text_eq : Text → Text → Bool
text_eq [] [] = true
text_eq [] (d ∷ ds) = false
text_eq (c ∷ cs) [] = false
text_eq (c ∷ cs) (d ∷ ds) = c == d && text_eq cs ds

-- `text.startsWith(start)`, arguments in that order.
unfoldable pub starts_with : Text → Text → Bool
starts_with cs [] = true
starts_with [] (d ∷ ds) = false
starts_with (c ∷ cs) (d ∷ ds) = c == d && starts_with cs ds

-- `text.includes(part)`
unfoldable pub includes : Text → Text → Bool
unfolding starts_with
includes [] part = starts_with [] part
includes (c ∷ cs) part = starts_with (c ∷ cs) part || includes cs part

-- `text.slice(n)`
unfoldable pub slice : ℕ → Text → Text
slice n [] = []
slice n (c ∷ cs) = let rest = slice (n - 1) cs in if n == 0 then c ∷ cs else rest

-- The text up to the first separator, and whether and how it goes on after it.
unfoldable pub before : ℕ → Text → Text
before sep [] = []
before sep (c ∷ cs) = let rest = before sep cs in if c == sep then [] else c ∷ rest

unfoldable pub contains : ℕ → Text → Bool
contains sep [] = false
contains sep (c ∷ cs) = c == sep || contains sep cs

unfoldable pub after : ℕ → Text → Text
after sep [] = []
after sep (c ∷ cs) = let rest = after sep cs in if c == sep then cs else rest

-- A part that gains a unit at its front.
abbrev extend : ℕ → List Text → List Text
extend c [] = (c ∷ []) ∷ []
extend c (t ∷ ts) = (c ∷ t) ∷ ts

-- `text.split(separator)`, for a separator of one unit.
unfoldable pub split : ℕ → Text → List Text
split sep [] = [] ∷ []
split sep (c ∷ cs) = let rest = split sep cs in if c == sep then [] ∷ rest else extend c rest

-- `text.trim()`
unfoldable pub trim_start : Text → Text
trim_start [] = []
trim_start (c ∷ cs) = let rest = trim_start cs in if is_space c then rest else c ∷ cs

-- A text without white space at its end.
unfoldable pub trim_end : Text → Text
trim_end [] = []
trim_end (c ∷ cs) = elim (trim_end cs) [
  | [] ↦ if is_space c then [] else c ∷ []
  | d ∷ ds ↦ c ∷ d ∷ ds
]

unfoldable pub trim : Text → Text
unfolding trim_start trim_end
trim t = trim_end (trim_start t)

abbrev pub is_empty : Text → Bool
is_empty [] = true
is_empty (c ∷ cs) = false

-- The unit does not occur in the text.
abbrev pub Free : ℕ → Text → Type 0
Free sep t = All (λ c. (c == sep) ≡ false) t

-- The text has no white space.
abbrev pub NoSpace : Text → Type 0
NoSpace t = All (λ c. is_space c ≡ false) t

pub text_eq_refl : (t : Text) → text_eq t t ≡ true
unfolding text_eq
text_eq_refl [] = refl
text_eq_refl (c ∷ cs) = rw (==_refl c, text_eq_refl cs) refl

pub text_eq_sound : (s t : Text) → text_eq s t ≡ true → s ≡ t
unfolding text_eq
text_eq_sound [] [] h = refl
text_eq_sound [] (d ∷ ds) h = cc
text_eq_sound (c ∷ cs) [] h = cc
text_eq_sound (c ∷ cs) (d ∷ ds) h = elim (Bool-cases (c == d)) [
  | inl e ↦
      let heads = (==_iff c d).0 e in
      let tails = text_eq_sound cs ds (cc (rw e at h)) in simp (heads, tails) refl
  | inr e ↦ cc (rw e at h)
]

-- A separator after a part that is free of it ends the first part.
pub split-append : (sep : ℕ) (s t : Text) → Free sep s → split sep (s ++ sep ∷ t) ≡ s ∷ split sep t
unfolding split
split-append sep [] t h = rw (==_refl sep) refl
split-append sep (c ∷ cs) t h = rw (h.0, split-append sep cs t h.1) refl

pub split-Free : (sep : ℕ) (s : Text) → Free sep s → split sep s ≡ s ∷ []
unfolding split
split-Free sep [] h = refl
split-Free sep (c ∷ cs) h = rw (h.0, split-Free sep cs h.1) refl

pub before-append : (sep : ℕ) (s t : Text) → Free sep s → before sep (s ++ sep ∷ t) ≡ s
unfolding before
before-append sep [] t h = rw (==_refl sep) refl
before-append sep (c ∷ cs) t h = rw (h.0, before-append sep cs t h.1) refl

pub after-append : (sep : ℕ) (s t : Text) → Free sep s → after sep (s ++ sep ∷ t) ≡ t
unfolding after
after-append sep [] t h = rw (==_refl sep) refl
after-append sep (c ∷ cs) t h = rw (h.0, after-append sep cs t h.1) refl

trim_end-NoSpace : (t : Text) → NoSpace t → trim_end t ≡ t
unfolding trim_end
trim_end-NoSpace [] h = refl
trim_end-NoSpace (c ∷ []) h = rw (h.0) refl
trim_end-NoSpace (c ∷ d ∷ ds) h = rw (trim_end-NoSpace (d ∷ ds) h.1) refl

pub trim-NoSpace : (t : Text) → NoSpace t → trim t ≡ t
unfolding trim trim_start
trim-NoSpace [] h = trim_end-NoSpace [] tt
trim-NoSpace (c ∷ cs) h = rw (h.0) (trim_end-NoSpace (c ∷ cs) h)
