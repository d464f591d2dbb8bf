-- ===== src/SamplePrams.antt =====
-- xrmIocApp/src/SamplePrams.{h,cpp}: the sample geometry. An `int` is its bit pattern, a
-- number below 2 ^ 32. The file /dev/shm/SamplePrams is an argument: what it holds, and how
-- the stdio calls on it end.
pub mod Laws
pub mod Examples
use acq400_xrm.Prelude.{
  ℕ, ◌+◌, ◌*◌, ◌%◌, ◌^◌, Bool, true, false, Option, none, some, ◌==◌, if◌then◌else◌,
}
use acq400_xrm.Prelude.Int.{ℤ, pos, negsuc}

pub record SamplePrams : Type 0 where
  pub magic : ℕ
  pub ssb : ℕ
  pub nsam : ℕ
  pub ai_count : ℕ
  pub ai_index : ℕ
  pub di_count : ℕ
  pub di_index : ℕ
  pub sp_count : ℕ
  pub sp_index : ℕ

-- ('S' << 24) | ('M' << 16) | ('P' << 8) | 'L'
abbrev pub sp_magic : ℕ
sp_magic = b'S' * 2 ^ 24 + b'M' * 2 ^ 16 + b'P' * 2 ^ 8 + b'L'

-- The constructor's memset.
unfoldable pub init : SamplePrams
init = record {
  magic = 0;
  ssb = 0;
  nsam = 0;
  ai_count = 0;
  ai_index = 0;
  di_count = 0;
  di_index = 0;
  sp_count = 0;
  sp_index = 0;
}

-- The product that validate() tests, in `int` arithmetic.
unfoldable pub validity_product : SamplePrams → ℕ
validity_product p = p.ssb * p.nsam * (p.ai_count + p.di_count + p.sp_count) % 2 ^ 32

unfoldable pub validate : SamplePrams → SamplePrams
unfolding validity_product
validate p = if validity_product p == 0 then p else record p { magic = sp_magic }

unfoldable pub is_valid : SamplePrams → Bool
is_valid p = p.magic == sp_magic

-- store(): `opens` is whether fopen() succeeds, `rc` what fwrite() returns; the second part
-- is the file afterwards, if it was written.
unfoldable pub store : Bool → ℤ → SamplePrams → ℤ × Option SamplePrams
unfolding is_valid
store opens rc p =
    if is_valid p then (if opens then (rc, some p) else (negsuc 0, none)) else (negsuc 0, none)

-- load(samplePrams): the file as fread() delivers it, with fread()'s result, or `none` where
-- fopen() fails; the second part is the structure that the caller handed in, afterwards.
unfoldable pub load : Option (ℤ × SamplePrams) → SamplePrams → ℤ × SamplePrams
unfolding is_valid
load none p = (negsuc 0, p)
load (some (rc, q)) p = elim rc [
  | pos n ↦ if n == 1 then (if is_valid q then (pos 1, q) else (negsuc 1, q)) else (pos n, q)
  | negsuc n ↦ (negsuc n, q)
]
