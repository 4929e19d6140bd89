-- ===== src/Arena.antt =====
-- The arena of lib/arena.c, from which memory is taken and never given back.
pub mod Keeps
mod Tests
use gnuweeb_bot.Base.{
  ℕ, ◌+◌, ◌-◌, ◌%◌, ◌^◌, [], ◌∷◌, ltb, Bytes, take, strlen, strnlen, Outcome, ok, check, assertion,
  ◌>>=◌, ◌>>◌,
}
use gnuweeb_bot.Server.State.{Memory, store_bytes}

-- `__ar_addr` as the object it points to, `__ar_size` and `__ar_pos`.
pub record Arena : Type 0 where
  pub addr : Memory
  pub size : ℕ
  pub pos : ℕ

unfoldable pub ar_init : Memory → ℕ → Arena
ar_init addr size = record { addr = addr; size = size; pos = 0 }

unfoldable pub ar_unused_size : Arena → ℕ
ar_unused_size ar = (ar.size + 2 ^ 64 - ar.pos) % 2 ^ 64

-- The place that is taken, by its offset in the object.
unfoldable pub ar_alloc : Arena → ℕ → Outcome (Arena × ℕ)
ar_alloc ar len =
    let pos = (ar.pos + len) % 2 ^ 64 in
    check (ltb pos ar.size) assertion >> ok (record ar { pos = pos }, ar.pos)

-- `ret[len] = '\0'`, then `memcpy`.
abbrev pub write_text : Memory → ℕ → Bytes → ℕ → Memory
write_text m at str len = store_bytes (store_bytes m (at + len) (0 ∷ [])) at (take len str)

-- A copy of the first `len` bytes of a text.
unfoldable pub ar_copy : Arena → Bytes → ℕ → Outcome (Arena × ℕ)
unfolding ar_alloc
ar_copy ar str len = do
  (ar', at) ← ar_alloc ar (len + 1)
  ok (record ar' { addr = write_text ar'.addr at str len }, at)

unfoldable pub ar_strdup : Arena → Bytes → Outcome (Arena × ℕ)
unfolding ar_copy
ar_strdup ar str = ar_copy ar str (strlen str)

unfoldable pub ar_strndup : Arena → Bytes → ℕ → Outcome (Arena × ℕ)
unfolding ar_copy
ar_strndup ar str inlen = ar_copy ar str (strnlen str inlen)
