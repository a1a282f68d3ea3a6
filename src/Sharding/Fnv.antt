-- ===== src/Sharding/Fnv.antt =====
-- The 64-bit FNV-1a hash of Go's hash/fnv, which internal/sharding/hrw.go calls.
use Prim.Native.Nat.{bit_xor}
use monofs.Prelude.{ℕ, ◌*◌, ◌%◌, ◌^◌, ◌≡◌, refl, List, [], ◌∷◌, codes}

abbrev offset64 : ℕ
offset64 = 14695981039346656037

abbrev prime64 : ℕ
prime64 = 1099511628211

unfoldable pub fnv_from : ℕ → List ℕ → ℕ
fnv_from h [] = h
fnv_from h (b ∷ bs) = fnv_from (bit_xor h b * prime64 % 2 ^ 64) bs

unfoldable pub fnv64a : List ℕ → ℕ
unfolding fnv_from
fnv64a bs = fnv_from offset64 bs

-- The published test vector of "foobar".
fnv64a_foobar : fnv64a (codes "foobar") ≡ 0x85944171f73967e8
unfolding fnv64a
fnv64a_foobar = refl
