-- ===== src/Common/Slices.antt =====
-- Slices of a byte buffer and the reading position of a decoder.
use Prim.Native.Nat.{ℕ, zero, suc, ◌+◌, ◌-◌, ◌≤◌}
use mathlib.Core.Path.{◌≡◌, refl, ap, sym, ◌∙◌}
use mathlib.Core.Bool.{◌&&◌}
use mathlib.Core.List.{List, [], ◌∷◌, ◌++◌}
use mathlib.Core.Option.{Option, none, some}
use native.Mathlib.Omega.{arith}
use delta_stream.Common.Tests.{leb, if◌then◌else◌}
use delta_stream.Common.Lists.{
  length, get_elem?, take, drop, length-drop, length-append, take-append, drop-append, drop-drop,
}

module _ {A : Type 0} where
  -- `bytes.get(lo..hi)`: `none` where the range is no range of the slice.
  unfoldable pub slice? : List A → ℕ → ℕ → Option (List A)
  slice? xs lo hi =
      if leb lo hi && leb hi (length xs) then some (take (hi - lo) (drop lo xs)) else none

  -- Position `c` of `bytes` stands in front of `rest`.
  abbrev pub At : List A → ℕ → List A → Type 0
  At bytes c rest = record { bound : c ≤ length bytes; rest_eq : drop c bytes ≡ rest }

  pub At-start : (bytes : List A) → At bytes 0 bytes
  At-start bytes = record { bound = omega arith; rest_eq = refl }

  pub length-At :
      (bytes : List A) (c : ℕ) (rest : List A) → At bytes c rest → length bytes ≡ c + length rest
  length-At bytes c rest a =
      let e : length bytes - c ≡ length rest = sym (length-drop c bytes) ∙ ap length a.rest_eq in
      let b = a.bound in omega arith

  -- Behind a front that was read, the position stands at what follows it.
  pub At-append :
      (bytes : List A) (c d : ℕ) (front rest : List A)
      → At bytes c (front ++ rest)
      → d ≡ c + length front
      → At bytes d rest
  At-append bytes c d front rest a e = record {
    bound =
        let n = length-At bytes c (front ++ rest) a in
        let m = length-append front rest in omega arith;
    rest_eq =
        sym (drop-drop c (length front) d bytes e)
        ∙ ap (drop (length front)) a.rest_eq
        ∙ drop-append (length front) front rest refl;
  }

  pub get_elem?-drop : (c : ℕ) (bytes : List A) → get_elem? bytes c ≡ get_elem? (drop c bytes) 0
  get_elem?-drop zero [] = refl
  get_elem?-drop zero (x ∷ xs) = refl
  get_elem?-drop (suc c) [] = refl
  get_elem?-drop (suc c) (x ∷ xs) = get_elem?-drop c xs

  pub get_elem?-At :
      (bytes : List A) (c : ℕ) (b : A) (rest : List A)
      → At bytes c (b ∷ rest)
      → get_elem? bytes c ≡ some b
  get_elem?-At bytes c b rest a = get_elem?-drop c bytes ∙ ap (λ l. get_elem? l 0) a.rest_eq

  pub slice?-At :
      (bytes : List A) (c d : ℕ) (front rest : List A)
      → At bytes c (front ++ rest)
      → d ≡ c + length front
      → slice? bytes c d ≡ some front
  unfolding slice?
  slice?-At bytes c d front rest a e =
      let n = length-At bytes c (front ++ rest) a in
      let m = length-append front rest in
      let t : take (d - c) (drop c bytes) ≡ front =
        ap (take (d - c)) a.rest_eq ∙ take-append (d - c) front rest (omega arith) in
      ground arith
