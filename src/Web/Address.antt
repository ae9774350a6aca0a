-- ===== src/Web/Address.antt =====
-- server/webserver/web_session.go: getIP, on the bytes of a remote address.
use pacbot.Prelude.{
  ℕ, suc, ◌==◌, ◌≡◌, refl, ap, List, [], ◌∷◌, ◌++◌, true, false, Option, none, some, All, take,
  if◌then◌else◌, length,
}

-- `strings.LastIndex`, with `none` for -1.
unfoldable pub last_index : ℕ → List ℕ → Option ℕ
last_index c [] = none
last_index c (x ∷ xs) = elim (last_index c xs) [
  | some i ↦ some (suc i)
  | none ↦ if x == c then some 0 else none
]

abbrev pub up_to : List ℕ → Option ℕ → Option (List ℕ)
up_to addr none = none
up_to addr (some i) = some (take i addr)

-- `none` stands for the panic of `addr[:-1]`.
unfoldable pub get_ip : List ℕ → Option (List ℕ)
get_ip addr = up_to addr (last_index b':' addr)

last_index-none : (c : ℕ) (xs : List ℕ) → All (λ x. (x == c) ≡ false) xs → last_index c xs ≡ none
unfolding last_index
last_index-none c [] h = refl
last_index-none c (x ∷ xs) (here, there) = rw (last_index-none c xs there, here) refl

last_index-append :
    (c : ℕ) (xs ys : List ℕ)
    → All (λ x. (x == c) ≡ false) ys
    → (c == c) ≡ true
    → last_index c (xs ++ c ∷ ys) ≡ some (length xs)
unfolding last_index
last_index-append c [] ys h same = rw (last_index-none c ys h, same) refl
last_index-append c (x ∷ xs) ys h same = rw (last_index-append c xs ys h same) refl

take-length-append : (xs ys : List ℕ) → take (length xs) (xs ++ ys) ≡ xs
take-length-append [] ys = refl
take-length-append (x ∷ xs) ys = ap (x ∷◌) (take-length-append xs ys)

-- The address before the port comes back, whatever colons it has of its own (those of IPv6), as long
-- as the port has none.
pub get_ip-append :
    (ip port : List ℕ) → All (λ x. (x == b':') ≡ false) port → get_ip (ip ++ b':' ∷ port) ≡ some ip
unfolding get_ip
get_ip-append ip port h =
    rw (last_index-append b':' ip port h refl) (ap some (take-length-append ip (b':' ∷ port)))
