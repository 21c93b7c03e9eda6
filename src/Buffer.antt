-- ===== src/Buffer.antt =====
-- buffer.h, buffer.cpp: the growable byte buffer of a connection.
--
-- A byte of the heap array is `none` while it is uninitialised, as after `new char[n]`. The null
-- pointer is the empty array. Addresses are indices into the array: `begin()` is `b`, `end()` is
-- `e`. `grants n` says whether `operator new[]` gives an array of `n` bytes; where it does not, an
-- operation ends in std::bad_alloc, `none`; what it leaves of the buffers is not modelled, and nothing
-- is run on them then (operator= has copied the fields by memcpy, so that `buf_` is that of the other
-- buffer).
pub mod Inv
pub mod Append
pub mod Copy
pub mod Refused
pub mod Refine
mod Tests
use mathlib.Core.Option.{map}
use net_library.Base.{
  ℕ, ◌-◌, ◌/◌, Bool, true, false, Option, none, some, List, [], ◌∷◌, max, leb, ltb, ◌==◌,
  if◌then◌else◌, take, drop, length, replicate, write_at, add_size, sub_size, mul_size,
}

abbrev pub Cell : Type 0
Cell = Option ℕ

abbrev pub uninitialised : Cell
uninitialised = none

-- The test `buf_ == nullptr`.
abbrev pub is_null : List Cell → Bool
is_null [] = true
is_null (_ ∷ _) = false

pub record Buffer : Type 0 where
  pub buf : List Cell
  pub b : ℕ
  pub e : ℕ
  pub cap : ℕ
  pub exp : ℕ

-- Buffer()
abbrev pub init : Buffer
init = record { buf = []; b = 0; e = 0; cap = 0; exp = 512 }

pub clear : Buffer → Buffer
clear r = record r { buf = []; b = 0; e = 0; cap = 0 }

abbrev pub size : Buffer → ℕ
size r = sub_size r.e r.b

abbrev pub is_empty : Buffer → Bool
is_empty r = r.e == r.b

abbrev pub space : Buffer → ℕ
space r = sub_size r.cap r.e

-- The bytes from `begin()` to `end()`.
abbrev pub contents : Buffer → List Cell
contents r = take (r.e - r.b) (drop r.b r.buf)

pub move_head : Buffer → Buffer
move_head r = record r { buf = write_at r.buf 0 (contents r); e = sub_size r.e r.b; b = 0 }

pub add_size_to : Buffer → ℕ → Buffer
add_size_to r len = record r { e = add_size r.e len }

pub consume : Buffer → ℕ → Buffer
unfolding clear
consume r len = let r' = record r { b = add_size r.b len } in if size r' == 0 then clear r' else r'

pub set_suggest_size : Buffer → ℕ → Buffer
set_suggest_size r sz = record r { exp = sz }

abbrev pub new_cap : Buffer → ℕ → ℕ
new_cap r len = max r.exp (max (mul_size 2 r.cap) (add_size (size r) len))

-- The memcpy of `append`: it goes to the address that `makeRoom` returned, which lies `len` bytes
-- before the end that `addSize` has set.
pub copy_in : Buffer → List Cell → Buffer
copy_in r xs = record r { buf = write_at r.buf (sub_size r.e (length xs)) xs }

module _ (grants : ℕ → Bool) where
  pub expand : Buffer → ℕ → Option Buffer
  expand r len =
      if grants (new_cap r len)
      then some (record r {
        buf = write_at (replicate (new_cap r len) uninitialised) 0 (contents r);
        b = 0;
        e = sub_size r.e r.b;
        cap = new_cap r len;
      })
      else none

  -- char* makeRoom(size_t len); the address returned is `end()`.
  pub make_room : Buffer → ℕ → Option Buffer
  unfolding move_head expand
  make_room r len =
      if leb (add_size r.e len) r.cap
      then some r
      else if ltb (add_size (size r) len) (r.cap / 2)
      then some (move_head r)
      else expand r len

  -- void makeRoom()
  pub make_some_room : Buffer → Option Buffer
  unfolding expand
  make_some_room r = if ltb (space r) r.exp then expand r 0 else some r

  -- char* allocRoom(size_t len)
  pub alloc_room : Buffer → ℕ → Option Buffer
  unfolding make_room add_size_to
  alloc_room r len = map (λ r'. add_size_to r' len) (make_room r len)

  -- Buffer& append(const char* p, size_t len)
  pub append : Buffer → List Cell → Option Buffer
  unfolding alloc_room copy_in
  append r xs = map (λ r'. copy_in r' xs) (alloc_room r (length xs))

  -- `buf` is `none` where it is the object itself. The buffers are returned in that order.
  pub absorb : Buffer → Option Buffer → Option (Buffer × Option Buffer)
  unfolding append clear
  absorb r none = some (r, none)
  absorb r (some o) =
      if size r == 0
      then some (record o { exp = r.exp }, some (record r { exp = o.exp }))
      else map (λ r'. (r', some (clear o))) (append r (contents o))

  -- copyFrom, which the copy constructor calls; the array is null where `b.buf_` is.
  pub copy_from : Buffer → Option Buffer
  copy_from o =
      if is_null o.buf
      then some o
      else if grants o.cap
      then some (record o { buf = write_at (replicate o.cap uninitialised) o.b (contents o) })
      else none

  -- operator=, which frees the array first; `none` is an assignment to itself. Where std::bad_alloc
  -- leaves copyFrom, its memcpy has made `buf_` that of the other buffer: the result `none` is the end of
  -- the model.
  pub assign : Buffer → Option Buffer → Option Buffer
  unfolding copy_from
  assign r none = copy_from (record r { buf = [] })
  assign r (some o) = copy_from o
