-- ===== src/BTree/Codec/Words.antt =====
-- Reading back the numbers and the chunks.
use mathlib.Core.List.{append-nil}
use gothinkdb.Prelude.{
  ℕ, ◌+◌, ◌-◌, ◌*◌, ◌/◌, ◌%◌, ◌^◌, ◌<◌, ◌≡◌, ap, ◌++◌, length, arith, length-append,
  take-append_self, drop-append_self,
}
use gothinkdb.BTree.Bytes.{Bytes}
use gothinkdb.BTree.Leaf.{to_u16}
use gothinkdb.BTree.Codec.{put_u16, put_u32, get_u16, get_u32, get_bytes, put_chunk, get_chunk}

pub get_u16-put_u16 : (n : ℕ) (rest : Bytes) → n < 2 ^ 16 → get_u16 (put_u16 n rest) ≡ (n, rest)
unfolding get_u16 put_u16
get_u16-put_u16 n rest h =
    let e : n % 256 + 256 * (n / 256 % 256) ≡ n = omega arith in ap (λ (m : ℕ). (m, rest)) e

pub get_u32-put_u32 : (n : ℕ) (rest : Bytes) → n < 2 ^ 32 → get_u32 (put_u32 n rest) ≡ (n, rest)
unfolding get_u32 put_u32
get_u32-put_u32 n rest h =
    let a = n / 256 in
    let b = a / 256 in
    let c = b / 256 in
    let last : c % 256 ≡ c = omega arith in
    let third : b % 256 + 256 * c ≡ b = omega arith in
    let second : a % 256 + 256 * b ≡ a = omega arith in
    let e : n % 256 + 256 * (a % 256 + 256 * (b % 256 + 256 * (c % 256))) ≡ n =
      rw (last, third, second) (omega arith) in
    ap (λ (m : ℕ). (m, rest)) e

get_bytes-append : (chunk rest : Bytes) → get_bytes (length chunk) (chunk ++ rest) ≡ (chunk, rest)
unfolding get_bytes
get_bytes-append chunk rest =
    let sizes = length-append {A = ℕ} chunk rest in
    let full : length chunk - length (chunk ++ rest) ≡ 0 =
      omega (arith, length-append chunk rest) in
    rw (take-append_self, drop-append_self, full, append-nil)

pub get_chunk-put_chunk :
    (chunk rest : Bytes) → length chunk < 2 ^ 16 → get_chunk (put_chunk chunk rest) ≡ (chunk, rest)
unfolding get_chunk put_chunk
get_chunk-put_chunk chunk rest h =
    let cut : to_u16 (length chunk) ≡ length chunk = omega arith in
    rw (cut, get_u16-put_u16 (length chunk) (chunk ++ rest) h) (get_bytes-append chunk rest)
