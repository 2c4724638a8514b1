-- ===== src/Cache/Utxos.antt =====
-- The UTXO cache, written and read back.
use mathlib.Core.List.{Perm, perm_middle}
use mathlib.Core.List.Perm
use bitcoin_iterate.Prelude.{◌≡◌, refl, true, none, some, List, [], ◌∷◌, ◌++◌, append-nil, ok}
use bitcoin_iterate.Types.{Utxo}
use bitcoin_iterate.Htable.{Htable}
use bitcoin_iterate.Utxo.{OutPoint, utxohash_eq}
use bitcoin_iterate.Cache.{UtxoFile, add_cached_utxos, read_utxo_cache, write_utxo_cache}

module _ (utxos : Htable OutPoint Utxo utxohash_eq) where
  open utxos use {Table, add, elements, init, elements-add, elements-init}

  add_cached_utxos-elements :
      (us : List Utxo) (m : Table)
      → Perm (elements (add_cached_utxos utxos us m)) (us ++ elements m)
  unfolding add_cached_utxos
  add_cached_utxos-elements [] m = Perm.refl (elements m)
  add_cached_utxos-elements (u ∷ us) m =
      Perm.trans (add_cached_utxos-elements us (add u m))
        (Perm.trans (Perm.append_left us (elements-add u m)) (perm_middle us (elements m)))

  -- What is written where no file was is read back as the same set, whatever the map held before.
  pub read_utxo_cache-write_utxo_cache :
      (m old : Table)
      → (file : UtxoFile) × (m' : Table) × (write_utxo_cache utxos true true none m
          ≡ ok (some file))
        × (read_utxo_cache utxos (some file) old ≡ (true, m', some file))
        × Perm (elements m') (elements m)
  unfolding write_utxo_cache read_utxo_cache
  read_utxo_cache-write_utxo_cache m old = (
    record { utxos = elements m; tail = 0 },
    add_cached_utxos utxos (elements m) init,
    refl,
    refl,
    rw (elements-init, append-nil) at (add_cached_utxos-elements (elements m) init),
  )
