-- ===== src/Utxo.antt =====
-- The unspent transaction outputs of utxo.c, and the hash of a key of utils.c.
pub mod Keys
pub mod Set
use bitcoin_iterate.Prelude.{
  ℕ, zero, suc, ◌+◌, ◌*◌, ◌%◌, Bool, true, false, not, ◌&&◌, Option, none, some, List, [], ◌∷◌,
  ◌++◌, length, get_elem?, ltb, leb, ◌==◌, if◌then◌else◌, replicate, Result, ok, err, ◌>>=◌, ◌>>◌,
  guard, or_fail, unknown_utxo, fault,
}
use bitcoin_iterate.Prelude.Bytes.{to_le, of_le, bytes_eq, read_at}
use bitcoin_iterate.Types.{
  Hash, Block, Input, Output, Transaction, Utxo, op_return, unknown_output, payment_output,
  change_output,
}
use bitcoin_iterate.Htable.{Htable}

-- A key is a pointer to a hash; behind the hash lies the index, both in a `struct utxo` and in a
-- `struct input`.
pub record OutPoint : Type 0 where
  pub txid : Hash
  pub index : ℕ

abbrev pub outpoint_bytes : OutPoint → List ℕ
outpoint_bytes k = k.txid ++ to_le 4 k.index

-- `i->txid` as a key.
abbrev pub keyof_input : Input → OutPoint
keyof_input i = record { txid = i.txid; index = i.index }

unfoldable pub keyof_utxo : Utxo → OutPoint
keyof_utxo utxo = record { txid = utxo.txid; index = utxo.index }

-- (SHA256_DIGEST_LENGTH + 1) * sizeof(u32) bytes are copied into the 8 bytes of `ret`.
unfoldable pub hashof_utxo : OutPoint → Result ℕ
hashof_utxo key = do
  guard (leb ((32 + 1) * 4) 8) fault
  bytes ← or_fail (read_at (outpoint_bytes key) 0 ((32 + 1) * 4)) fault
  ok (of_le bytes)

unfoldable pub utxohash_eq : Utxo → OutPoint → Bool
unfolding keyof_utxo
utxohash_eq utxo key = bytes_eq (outpoint_bytes (keyof_utxo utxo)) (outpoint_bytes key)

-- The first eight bytes of the key, as a size_t; a hash has 32.
unfoldable pub hash_sha : List ℕ → Result ℕ
hash_sha key = do bytes ← or_fail (read_at key 0 8) fault; ok (of_le bytes)

-- `o->script[0]` is read only where there is a byte.
unfoldable pub is_unspendable : Output → Bool
is_unspendable o = ltb 0 o.script_length && (elim o.script [ [] ↦ false | b ∷ bs ↦ b == op_return ])

-- The array `types`.
unfoldable pub guess_output_types : Transaction → List ℕ
guess_output_types t = elim t.output [
  | a ∷ os ↦ elim os [
    | b ∷ rest ↦
        if t.output_count == 2
        then (let first_round = a.amount % 1000 == 0 in
            let second_round = b.amount % 1000 == 0 in
            if first_round && not second_round
            then payment_output ∷ change_output ∷ []
            else if second_round && not first_round
            then change_output ∷ payment_output ∷ []
            else replicate t.output_count unknown_output)
        else replicate t.output_count unknown_output
    | [] ↦ replicate t.output_count unknown_output
  ]
  | [] ↦ replicate t.output_count unknown_output
]

-- (unsigned)height: -1 becomes the largest u32.
abbrev pub unsigned_height : Option ℕ → ℕ
unsigned_height none = 0xffff_ffff
unsigned_height (some h) = h

unfoldable pub new_utxo : Block → Transaction → (txnum index : ℕ) → (type : ℕ) → Output → Utxo
new_utxo b t txnum index type o = record {
  txid = t.txid;
  index = index;
  timestamp = b.bh.timestamp;
  height = unsigned_height b.height;
  txnum = txnum;
  type = type;
  amount = o.amount;
}

module _ (utxos : Htable OutPoint Utxo utxohash_eq) where
  open utxos use {Table, add, del, get}

  unfoldable pub add_utxo :
      Table → Block → Transaction → (txnum index : ℕ) → (types : List ℕ) → Result Table
  unfolding new_utxo is_unspendable
  add_utxo utxo_map b t txnum index types = do
    o ← or_fail (get_elem? t.output index) fault
    if is_unspendable o then ok utxo_map else (do
      type ← or_fail (get_elem? types index) fault
      ok (add (new_utxo b t txnum index type o) utxo_map))

  -- The loop of `add_utxos`: `n` outputs from the `i`-th on.
  unfoldable pub add_utxos_from :
      (i n : ℕ) → Table → Block → Transaction → ℕ → List ℕ → Result Table
  add_utxos_from i zero utxo_map b t txnum types = ok utxo_map
  add_utxos_from i (suc n) utxo_map b t txnum types = do
    utxo_map ← add_utxo utxo_map b t txnum i types
    add_utxos_from (i + 1) n utxo_map b t txnum types

  unfoldable pub add_utxos : Table → Block → Transaction → ℕ → Result Table
  unfolding guess_output_types
  add_utxos utxo_map b t txnum =
      add_utxos_from 0 t.output_count utxo_map b t txnum (guess_output_types t)

  unfoldable pub release_utxo : Table → Input → Result Table
  release_utxo utxo_map i = do
    utxo ← or_fail (get (keyof_input i) utxo_map) unknown_utxo
    ok (del utxo utxo_map)
