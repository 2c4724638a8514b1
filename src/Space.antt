-- ===== src/Space.antt =====
-- The bump allocator of space.h. A size_t has 64 bits, so sums and products wrap.
pub mod Bounds
use bitcoin_iterate.Prelude.{
  ℕ, ◌+◌, ◌*◌, ◌%◌, ◌^◌, ◌&&◌, leb, Result, ok, ◌>>=◌, ◌>>◌, guard, assert_failed, fault,
}

-- sizeof(space->buf)
abbrev pub buf_size : ℕ
buf_size = 3 * 1024 * 1024

pub record Space : Type 0 where
  pub off : ℕ

-- What an allocation hands out: `bytes` bytes of the buffer from `start` on.
pub record Region : Type 0 where
  pub start : ℕ
  pub bytes : ℕ

unfoldable pub space_init : Space
space_init = record { off = 0 }

unfoldable pub space_alloc : Space → ℕ → Result (Region × Space)
space_alloc space bytes = do
  guard (leb ((space.off + bytes) % 2 ^ 64) buf_size) assert_failed
  ok (
    record { start = space.off; bytes = bytes },
    record space { off = (space.off + bytes) % 2 ^ 64 },
  )

-- `size` is sizeof(type).
unfoldable pub space_alloc_arr : Space → ℕ → ℕ → Result (Region × Space)
unfolding space_alloc
space_alloc_arr space size num = space_alloc space ((size * num) % 2 ^ 64)

-- A write of `n` bytes at `at` in a region: it must lie in what was handed out, and in the buffer.
unfoldable pub write_region : Region → ℕ → ℕ → Result (Unit {0})
write_region r at n = guard (leb (at + n) r.bytes && leb (r.start + at + n) buf_size) fault
