-- ===== src/Topics/Value.antt =====
-- broker/lib/topics/memtopics.go, equal: the comparison of two `interface{}` values. The broker
-- subscribes with pointers to `subscription`; floating-point values are left out.
use hmq.Prelude.{
  Option, none, some, ℕ, ◌≡◌, refl, Bool, true, false, ◌↔◌, Bytes, arith, ◌==◌, nat_eq, bytes_eq,
}
use hmq.Prelude.{bytes_beq_iff, if◌then◌else◌}

-- The integer kinds of the type switch.
pub data Kind : Type 0 where
  int64 int32 int16 int8 int uint uint8 uint16 uint32 uint64 uintptr : Kind

abbrev kind_code : Kind → ℕ
kind_code int64 = 0
kind_code int32 = 1
kind_code int16 = 2
kind_code int8 = 3
kind_code int = 4
kind_code uint = 5
kind_code uint8 = 6
kind_code uint16 = 7
kind_code uint32 = 8
kind_code uint64 = 9
kind_code uintptr = 10

-- A subscriber. `subscription p` is the pointer to the subscription at the address `p`.
pub data Value : Type 0 where
  subscription : ℕ → Value
  func : ℕ → Value
  text : Bytes → Value
  number : Kind → ℕ → Value

-- reflect.TypeOf(k1) == reflect.TypeOf(k2)
abbrev same_type : Value → Value → Bool
same_type (subscription p) (subscription q) = true
same_type (func f) (func g) = true
same_type (text s) (text t) = true
same_type (number k m) (number l n) = kind_code k == kind_code l
same_type _ _ = false

-- Go's `k1 == k2` on values of one type that is not a function type.
abbrev same_value : Value → Value → Bool
same_value (subscription p) (subscription q) = p == q
same_value (text s) (text t) = s == t
same_value (number k m) (number l n) = m == n
same_value _ _ = false

abbrev pub is_func : Value → Bool
is_func (func f) = true
is_func _ = false

-- `&k1 == &k2` compares the addresses of the two parameters, which differ. The type switch after
-- `k1 == k2` repeats that comparison at each type, so it answers false where it is reached.
unfoldable pub equal : Value → Value → Bool
equal k1 k2 =
    if same_type k1 k2
    then (if is_func k1 then false else if same_value k1 k2 then true else same_value k1 k2)
    else false

kind_of_code : (k l : Kind) → kind_code k ≡ kind_code l → k ≡ l
kind_of_code k l h = ground arith

equal→eq : (a b : Value) → equal a b ≡ true → a ≡ b
unfolding equal
equal→eq (subscription p) (subscription q) h = ground arith
equal→eq (text s) (text t) h = ground (arith, bytes_beq_iff s t)
equal→eq (number k m) (number l n) h = ground (arith, kind_of_code k l)
equal→eq (func f) (func g) h = cc
equal→eq (func f) (subscription q) h = cc
equal→eq (func f) (text t) h = cc
equal→eq (func f) (number l n) h = cc
equal→eq _ _ h = cc

equal_self : (a : Value) → is_func a ≡ false → equal a a ≡ true
unfolding equal
equal_self (subscription p) h = ground arith
equal_self (func f) h = cc
equal_self (text s) h = ground (arith, bytes_beq_iff s s)
equal_self (number k m) h = ground arith

equal→not_func : (a b : Value) → equal a b ≡ true → is_func a ≡ false
unfolding equal
equal→not_func (func f) (func g) h = cc
equal→not_func (func f) (subscription q) h = cc
equal→not_func (func f) (text t) h = cc
equal→not_func (func f) (number l n) h = cc
equal→not_func _ b h = refl

-- `equal` answers true exactly for a value and itself, unless the value is a function.
pub equal_iff : (a b : Value) → (equal a b ≡ true) ↔ ((a ≡ b) × (is_func a ≡ false))
equal_iff a b = (λ h. (equal→eq a b h, equal→not_func a b h), λ h. rw (← h.0) (equal_self a h.1))

-- A subscriber, nil or not, that is no function value: the broker's are pointers.
abbrev pub NotFunc : Option Value → Type 0
NotFunc none = Unit
NotFunc (some v) = is_func v ≡ false

pub subscription_inj : {p q : ℕ} → subscription p ≡ subscription q → p ≡ q
subscription_inj h = cc
