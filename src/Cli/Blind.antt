-- ===== src/Cli/Blind.antt =====
-- Formats that do not look at the set of unspent outputs.
use mathlib.Core.Path.{fun_ext}
use bitcoin_iterate.Prelude.{
  ℕ, ◌≡◌, refl, ap, true, false, ◌&&◌, Option, none, some, List, [], ◌∷◌, arith, ◌==◌, Bool-cases,
  ◌⊎◌, inl, inr,
}
use bitcoin_iterate.Types.{Block, Transaction, Input, Output, Utxo}
use bitcoin_iterate.Utxo.{OutPoint}
use bitcoin_iterate.Format.Print.{
  Args, given, transaction_code, input_code, escape, print_loop, print_format,
}
use bitcoin_iterate.Cli.{
  strstr, code, asks, needs_utxo, print_transaction, print_input, print_output,
}

module _ (hex_encode : List ℕ → List ℕ) (get get' : OutPoint → Option Utxo) where
  transaction_code_blind :
      (args : Args) (t : Transaction) (c : ℕ)
      → (c == b'F') ≡ false
      → (c == b'D') ≡ false
      → transaction_code hex_encode get args t c ≡ transaction_code hex_encode get' args t c
  unfolding transaction_code
  transaction_code_blind args t c f d = rw (f, d)

  input_code_blind :
      (args : Args) (i : ℕ × Input) (c : ℕ)
      → (c == b'a') ≡ false
      → (c == b'B') ≡ false
      → (c == b'T') ≡ false
      → input_code hex_encode get args i c ≡ input_code hex_encode get' args i c
  unfolding input_code
  input_code_blind args i c a b t = rw (a, b, t)

-- A place in a format where no code that reads the set stands.
abbrev Other : (d e group c : ℕ) → Type 0
Other d e group c = (d == group && e == c) ≡ false

abbrev OtherInput : (d e : ℕ) → Type 0
OtherInput d e = Other d e b'i' b'a' × Other d e b'i' b'B' × Other d e b'i' b'T'

abbrev Misses : (fmt : List ℕ) (group c : ℕ) → Type 0
Misses fmt group c = strstr fmt (code group c) ≡ false

-- The format has no code that reads the set, with the arguments at hand.
record IsBlind (args : Args) (fmt : List ℕ) : Type 0 where
  fees : Misses fmt b't' b'F'
  days : Misses fmt b't' b'D'
  input : (args.i ≡ none) ⊎ (Misses fmt b'i' b'a' × Misses fmt b'i' b'B' × Misses fmt b'i' b'T')

Misses-tail : (x : ℕ) (xs : List ℕ) (g c : ℕ) → Misses (x ∷ xs) g c → Misses xs g c
unfolding strstr
Misses-tail x xs g c h = ground arith

Misses-here :
    (x d e : ℕ) (rest : List ℕ) (g c : ℕ)
    → (x == b'%') ≡ true
    → Misses (x ∷ d ∷ e ∷ rest) g c
    → Other d e g c
unfolding strstr
Misses-here x d e rest g c percent h = ground arith

input_here :
    (args : Args) (x d e : ℕ) (rest : List ℕ)
    → (x == b'%') ≡ true
    → (args.i ≡ none)
      ⊎ (Misses (x ∷ d ∷ e ∷ rest) b'i' b'a'
          × Misses (x ∷ d ∷ e ∷ rest) b'i' b'B'
          × Misses (x ∷ d ∷ e ∷ rest) b'i' b'T')
    → (args.i ≡ none) ⊎ OtherInput d e
input_here args x d e rest percent (inl none_given) = inl none_given
input_here args x d e rest percent (inr (a, h, t)) = inr (
  Misses-here x d e rest b'i' b'a' percent a,
  Misses-here x d e rest b'i' b'B' percent h,
  Misses-here x d e rest b'i' b'T' percent t,
)

Misses-end : (x d : ℕ) (g c : ℕ) → (c == 0) ≡ false → Other d 0 g c
Misses-end x d g c h = ground arith

IsBlind-tail : (args : Args) (x : ℕ) (xs : List ℕ) → IsBlind args (x ∷ xs) → IsBlind args xs
IsBlind-tail args x xs b = record {
  fees = Misses-tail x xs b't' b'F' b.fees;
  days = Misses-tail x xs b't' b'D' b.days;
  input = elim b.input [
    | inl none_given ↦ inl none_given
    | inr (a, h, t) ↦
        inr
          (Misses-tail x xs b'i' b'a' a, Misses-tail x xs b'i' b'B' h, Misses-tail x xs b'i' b'T' t)
  ];
}

module _ (hex_encode : List ℕ → List ℕ) (get get' : OutPoint → Option Utxo) where
  input_blind :
      (args : Args) (d e : ℕ)
      → (d == b'i') ≡ true
      → (args.i ≡ none) ⊎ OtherInput d e
      → given args.i (λ i. input_code hex_encode get args i e)
        ≡ given args.i (λ i. input_code hex_encode get' args i e)
  input_blind args d e h (inl none_given) = rw none_given
  input_blind args d e h (inr (a, b, t)) = ap (given args.i) (
      fun_ext λ i.
        input_code_blind hex_encode get get' args i e (ground arith) (ground arith) (ground arith))

  escape_blind :
      (args : Args) (d e : ℕ)
      → Other d e b't' b'F'
      → Other d e b't' b'D'
      → (args.i ≡ none) ⊎ OtherInput d e
      → escape hex_encode get args d e ≡ escape hex_encode get' args d e
  unfolding escape
  escape_blind args d e f days i = elim (Bool-cases (d == b't')) [
    | inl t ↦ rw (
      t,
      fun_ext λ (x : Transaction).
          transaction_code_blind hex_encode get get' args x e (ground arith) (ground arith),
    )
    | inr t ↦ elim (Bool-cases (d == b'i')) [
      | inl h ↦ rw (t, h, input_blind args d e h i)
      | inr h ↦ rw (t, h)
    ]
  ]

  print_loop_blind :
      (args : Args) (fmt : List ℕ)
      → IsBlind args fmt
      → print_loop hex_encode get args fmt ≡ print_loop hex_encode get' args fmt
  unfolding print_loop
  print_loop_blind args [] b = refl
  print_loop_blind args (c ∷ []) b = refl
  print_loop_blind args (c ∷ d ∷ []) b = rw (
      escape_blind args d 0 (Misses-end c d b't' b'F' refl) (Misses-end c d b't' b'D' refl) (
        inr (
          Misses-end c d b'i' b'a' refl,
          Misses-end c d b'i' b'B' refl,
          Misses-end c d b'i' b'T' refl,
        )))
  print_loop_blind args (c ∷ d ∷ e ∷ rest) b = elim (Bool-cases (c == b'%')) [
    | inr h ↦ rw (h, print_loop_blind args (d ∷ e ∷ rest) (IsBlind-tail args c _ b))
    | inl h ↦
        let after = IsBlind-tail args e _ (IsBlind-tail args d _ (IsBlind-tail args c _ b)) in
        rw (
          h,
          escape_blind args d e (Misses-here c d e rest b't' b'F' h b.fees)
              (Misses-here c d e rest b't' b'D' h b.days) (input_here args c d e rest h b.input),
          print_loop_blind args rest after,
        )
  ]

  print_format_blind :
      (args : Args) (fmt : List ℕ)
      → IsBlind args fmt
      → print_format hex_encode get args fmt ≡ print_format hex_encode get' args fmt
  unfolding print_format
  print_format_blind args fmt b = rw (print_loop_blind args fmt b)

  module _ (txfmt inputfmt outputfmt utxofmt : Option (List ℕ))
      (off : needs_utxo txfmt inputfmt outputfmt utxofmt ≡ false) where
    transaction_blind :
        (b : Block) (t : Transaction) (txnum : ℕ)
        → print_transaction hex_encode get txfmt b t txnum
          ≡ print_transaction hex_encode get' txfmt b t txnum
    unfolding print_transaction needs_utxo
    transaction_blind b t txnum = go txfmt (ground arith) (ground arith)
      where
        go :
            (f : Option (List ℕ))
            → asks f b't' b'F' ≡ false
            → asks f b't' b'D' ≡ false
            → print_transaction hex_encode get f b t txnum
              ≡ print_transaction hex_encode get' f b t txnum
        go none x y = refl
        go (some fmt) x y =
            print_format_blind _ fmt (record { fees = x; days = y; input = inl refl })

    output_blind :
        (b : Block) (t : Transaction) (txnum place : ℕ) (o : Output)
        → print_output hex_encode get outputfmt b t txnum place o
          ≡ print_output hex_encode get' outputfmt b t txnum place o
    unfolding print_output needs_utxo
    output_blind b t txnum place o = go outputfmt (ground arith) (ground arith)
      where
        go :
            (f : Option (List ℕ))
            → asks f b't' b'F' ≡ false
            → asks f b't' b'D' ≡ false
            → print_output hex_encode get f b t txnum place o
              ≡ print_output hex_encode get' f b t txnum place o
        go none x y = refl
        go (some fmt) x y =
            print_format_blind _ fmt (record { fees = x; days = y; input = inl refl })

    input_blind_format :
        (b : Block) (t : Transaction) (txnum place : ℕ) (i : Input)
        → print_input hex_encode get inputfmt b t txnum place i
          ≡ print_input hex_encode get' inputfmt b t txnum place i
    unfolding print_input needs_utxo
    input_blind_format b t txnum place i =
        go inputfmt (ground arith) (ground arith) (ground arith) (ground arith) (ground arith)
      where
        go :
            (f : Option (List ℕ))
            → asks f b't' b'F' ≡ false
            → asks f b't' b'D' ≡ false
            → asks f b'i' b'a' ≡ false
            → asks f b'i' b'B' ≡ false
            → asks f b'i' b'T' ≡ false
            → print_input hex_encode get f b t txnum place i
              ≡ print_input hex_encode get' f b t txnum place i
        go none x y a h z = refl
        go (some fmt) x y a h z =
            print_format_blind _ fmt (record { fees = x; days = y; input = inr (a, h, z) })

    -- Where `main` asks for no set of unspent outputs, what is printed of a transaction, an input
    -- or an output is the same whatever the set holds, and there is no format for unspent outputs.
    pub print_blind :
        (b : Block) (t : Transaction) (txnum place : ℕ) (i : Input) (o : Output)
        → (print_transaction hex_encode get txfmt b t txnum
            ≡ print_transaction hex_encode get' txfmt b t txnum)
          × (print_input hex_encode get inputfmt b t txnum place i
              ≡ print_input hex_encode get' inputfmt b t txnum place i)
          × (print_output hex_encode get outputfmt b t txnum place o
              ≡ print_output hex_encode get' outputfmt b t txnum place o)
          × (utxofmt ≡ none)
    print_blind b t txnum place i o = (
      transaction_blind b t txnum,
      input_blind_format b t txnum place i,
      output_blind b t txnum place o,
      unfold needs_utxo in ground arith,
    )
