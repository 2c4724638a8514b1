-- ===== src/Format/Escapes.antt =====
-- How `print_format` reads a format.
use bitcoin_iterate.Prelude.{
  ℕ, ◌≡◌, refl, false, Option, List, [], ◌∷◌, ◌++◌, ◌∙◌, arith, ◌==◌, All, Result, ok, err, ◌>>=◌,
  fault,
}
use bitcoin_iterate.Types.{Utxo}
use bitcoin_iterate.Utxo.{OutPoint}
use bitcoin_iterate.Format.Print.{Args, escape, print_loop, print_format}

-- A character that is printed as it stands.
abbrev pub IsPlain : ℕ → Type 0
IsPlain c = (c == b'%') ≡ false

>>=-ok : (r : Result (List ℕ)) → r ≡ (r >>= λ a. ok a)
>>=-ok (ok a) = refl
>>=-ok (err x) = refl

module _ (hex_encode : List ℕ → List ℕ) (get : OutPoint → Option Utxo) (args : Args) where
  print_loop-plain :
      (c : ℕ) (rest : List ℕ)
      → IsPlain c
      → print_loop hex_encode get args (c ∷ rest)
        ≡ (print_loop hex_encode get args rest >>= λ shown. ok (c ∷ shown))
  unfolding print_loop
  print_loop-plain c [] h = rw h
  print_loop-plain c (d ∷ []) h = ground arith
  print_loop-plain c (d ∷ e ∷ rest) h = rw h

  print_loop-escape :
      (d e : ℕ) (rest : List ℕ)
      → print_loop hex_encode get args (b'%' ∷ d ∷ e ∷ rest) ≡ (
          escape hex_encode get args d e >>= λ shown.
          print_loop hex_encode get args rest >>= λ others. ok (shown ++ others))
  unfolding print_loop
  print_loop-escape d e rest = refl

  print_loop-plain_front :
      (front rest : List ℕ)
      → All IsPlain front
      → print_loop hex_encode get args (front ++ rest)
        ≡ (print_loop hex_encode get args rest >>= λ shown. ok (front ++ shown))
  print_loop-plain_front [] rest h = >>=-ok _
  print_loop-plain_front (c ∷ front) rest h =
      print_loop-plain c (front ++ rest) h.0
      ∙ rw (print_loop-plain_front front rest h.1) (bind_twice _)
    where
      bind_twice :
          (r : Result (List ℕ))
          → ((r >>= λ shown. ok (front ++ shown)) >>= λ shown. ok (c ∷ shown))
            ≡ (r >>= λ shown. ok (c ∷ (front ++ shown)))
      bind_twice (ok a) = refl
      bind_twice (err x) = refl

  plain_whole :
      (format : List ℕ) → All IsPlain format → print_loop hex_encode get args format ≡ ok format
  unfolding print_loop
  plain_whole [] h = refl
  plain_whole (c ∷ format) h = print_loop-plain c format h.0 ∙ rw (plain_whole format h.1)

  -- A format with no `%` is printed as it stands, with the end of the line.
  pub print_format-plain :
      (format : List ℕ)
      → All IsPlain format
      → print_format hex_encode get args format ≡ ok (format ++ (0x0a ∷ []))
  unfolding print_format
  print_format-plain format h = rw (plain_whole format h)

  -- A `%` at the end of a format, or before a last character that names no group, makes the loop
  -- pass the end of the string.
  pub print_format-dangling :
      (front : List ℕ) (d : ℕ)
      → All IsPlain front
      → escape hex_encode get args d 0 ≡ ok []
      → (print_format hex_encode get args (front ++ (b'%' ∷ [])) ≡ err fault)
        × (print_format hex_encode get args (front ++ (b'%' ∷ d ∷ [])) ≡ err fault)
  unfolding print_format print_loop
  print_format-dangling front d h unknown = (
    rw (print_loop-plain_front front (b'%' ∷ []) h),
    rw (print_loop-plain_front front (b'%' ∷ d ∷ []) h, unknown),
  )
