-- ===== src/Controller/Connector/Hash.antt =====
-- The keys of the cache.
use Prim.Native.Char.{code}
use provider_temporal.Base.{
  ℕ, ◌/◌, ◌%◌, ◌+◌, ◌<◌, zero, suc, ◌≡◌, refl, ap, Bool, true, ◌&&◌, List, [], ◌∷◌, if◌then◌else◌,
  ltb, nat_eq, All, arith,
}
use provider_temporal.Api.Kube.{Kube}
use provider_temporal.Controller.Connector.Connect.{Cluster, hex_digits, digit_of, hex_encode, hash}

-- A test of every digit under a bound.
each_digit : (ℕ → Bool) → ℕ → Bool
each_digit test zero = true
each_digit test (suc top) = each_digit test top && test top

test_of_each : (test : ℕ → Bool) (top d : ℕ) → d < top → each_digit test top ≡ true → test d ≡ true
unfolding each_digit
test_of_each test zero d under passed = absurd (omega (arith, under))
test_of_each test (suc top) d under passed = ground (arith, test_of_each test top d)

abbrev digit_code : ℕ → ℕ
digit_code n = if ltb n 10 then 48 + n else 87 + n

-- The sixteen digits have the codes that `digit_code` says.
digit_table : each_digit (λ n. nat_eq (code (digit_of hex_digits n)) (digit_code n)) 16 ≡ true
unfolding each_digit
digit_table = refl

code-digit_of : (n : ℕ) → n < 16 → code (digit_of hex_digits n) ≡ digit_code n
code-digit_of n h = ground (
  arith,
  test_of_each (λ m. nat_eq (code (digit_of hex_digits m)) (digit_code m)) 16 n h digit_table,
)

digit_of-injective :
    (m n : ℕ) → m < 16 → n < 16 → digit_of hex_digits m ≡ digit_of hex_digits n → m ≡ n
digit_of-injective m n hm hn e = ground (arith, code-digit_of m hm, code-digit_of n hn, ap code e)

abbrev pub IsBytes : List ℕ → Type 0
IsBytes = All (λ b. b < 256)

pub hex_encode-injective :
    (xs ys : List ℕ) → IsBytes xs → IsBytes ys → hex_encode xs ≡ hex_encode ys → xs ≡ ys
unfolding hex_encode
hex_encode-injective [] [] hx hy e = refl
hex_encode-injective [] (y ∷ ys) hx hy e = cc
hex_encode-injective (x ∷ xs) [] hx hy e = cc
hex_encode-injective (x ∷ xs) (y ∷ ys) hx hy e =
    let high : x / 16 ≡ y / 16 =
      digit_of-injective (x / 16) (y / 16) (omega arith) (omega arith) (cc) in
    let low : x % 16 ≡ y % 16 =
      digit_of-injective (x % 16) (y % 16) (omega arith) (omega arith) (cc) in
    let rest : xs ≡ ys = hex_encode-injective xs ys hx.1 hy.1 (cc) in
    let same : x ≡ y = omega (arith, high, low) in cc (same, rest)

-- Two credentials whose SHA-256 digests are bytes have the same key only if the digests agree.
pub hash-injective :
    {k : Kube} {W : Type 0} (cluster : Cluster k W) (c d : List ℕ)
    → IsBytes (cluster.sha256 c)
    → IsBytes (cluster.sha256 d)
    → hash cluster c ≡ hash cluster d
    → cluster.sha256 c ≡ cluster.sha256 d
unfolding hash
hash-injective cluster c d hc hd e =
    hex_encode-injective (cluster.sha256 c) (cluster.sha256 d) hc hd e
