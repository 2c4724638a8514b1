-- ===== src/Space/Bounds.antt =====
-- When an allocation succeeds, and when what it hands out lies in the buffer.
use bitcoin_iterate.Prelude.{ℕ, ◌+◌, ◌*◌, ◌^◌, ◌≤◌, ◌<◌, ◌≡◌, ok, arith, ◌⊎◌}
use bitcoin_iterate.Space.{Space, Region, buf_size, space_alloc, space_alloc_arr, write_region}

-- With no wrap-around an allocation succeeds exactly when it fits.
pub space_alloc-fits :
    (off bytes : ℕ)
    → off + bytes ≤ buf_size
    → space_alloc (record { off = off }) bytes
      ≡ ok (record { start = off; bytes = bytes }, record { off = off + bytes })
unfolding space_alloc
space_alloc-fits off bytes h = ground arith

pub space_alloc_arr-fits :
    (off size num : ℕ)
    → off + size * num ≤ buf_size
    → space_alloc_arr (record { off = off }) size num
      ≡ ok (record { start = off; bytes = size * num }, record { off = off + size * num })
unfolding space_alloc_arr space_alloc
space_alloc_arr-fits off size num h = ground arith

pub write_region-fits :
    (r : Region) (at n : ℕ)
    → at + n ≤ r.bytes
    → r.start + r.bytes ≤ buf_size
    → write_region r at n ≡ ok tt
unfolding write_region
write_region-fits r at n h k = ground arith

-- An allocation from a space within its buffer either stops at the assertion, or hands out
-- exactly the bytes asked for, from the old end of the space on: the region then ends inside the
-- buffer at the new end of the space, or the sum of the old end and the size has wrapped around
-- 2 ^ 64 and the region reaches past the buffer.
pub space_alloc_cases :
    (s s' : Space) (r : Region) (bytes : ℕ)
    → s.off ≤ buf_size
    → bytes < 2 ^ 64
    → space_alloc s bytes ≡ ok (r, s')
    → (r.start ≡ s.off)
      × (r.bytes ≡ bytes)
      × (s'.off ≤ buf_size)
      × ((s.off + bytes < 2 ^ 64) × (s'.off ≡ r.start + r.bytes)
          ⊎ (2 ^ 64 ≤ s.off + bytes) × (buf_size < r.start + r.bytes))
unfolding space_alloc
space_alloc_cases s s' r bytes hs hb e = ground arith
