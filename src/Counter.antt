-- ===== src/Counter.antt =====
-- tlgsutils/counter.hpp: a handle on a shared atomic counter. A method takes and gives the
-- shared value beside the handle. `size_t` has 64 bits.
use tlgs.Common.{ℕ, ◌+◌, ◌-◌, ◌%◌}

abbrev pub size_mod : ℕ
size_mod = 18_446_744_073_709_551_616

abbrev size_max : ℕ
size_max = 18_446_744_073_709_551_615

-- What the pointer `counter_` may be: null, the shared counter, or indeterminate.
pub data Pointer : Type 0 where
  null shared indeterminate : Pointer

pub record Counter : Type 0 where
  pub count : ℕ
  pub pointer : Pointer

abbrev fetch_add : ℕ → ℕ
fetch_add n = (n + 1) % size_mod

abbrev pub fetch_sub : ℕ → ℕ
fetch_sub n = (n + size_mod - 1) % size_mod

-- Counter(std::atomic<size_t>&)
unfoldable pub acquire : ℕ → Counter × ℕ
acquire n = (record { count = n; pointer = shared }, fetch_add n)

-- Counter(Counter&& other), of the new handle and of `other`. The new one's fields have what their
-- declarations give them, and it is `other` that is assigned.
unfoldable pub move : Counter → Counter × Counter
move other = (
  record { count = size_max; pointer = null },
  record other { count = size_max; pointer = indeterminate },
)

-- release(), with its result
unfoldable pub release : Counter → ℕ → Counter × ℕ × ℕ
release c n = elim c.pointer [
  | null ↦ (c, n, size_max)
  | _ ↦ (record { count = size_max; pointer = null }, fetch_sub n, fetch_sub n)
]

-- ~Counter()
unfoldable pub destroy : Counter → ℕ → ℕ
destroy c n = elim c.pointer [ null ↦ n | _ ↦ fetch_sub n ]
