-- ===== src/Tga/Response.antt =====
-- The buffer for the answer to a request (lib/tg_api.c): how it is allocated, and how libcurl fills
-- it piece by piece.
pub mod Holds
use gnuweeb_bot.Base.{
  ℕ, ◌+◌, ◌*◌, ◌%◌, ◌^◌, Bool, true, false, Option, none, some, List, [], ◌∷◌, ◌++◌, ltb, leb, ◌==◌,
  if◌then◌else◌, length, Bytes, Outcome, ok, crash, check, out_of_bounds, aborted, ◌>>=◌, ◌>>◌,
}
use gnuweeb_bot.Server.State.{Memory, store_bytes, Ret, success, fail}

-- `tga_res_t`; `none` is NULL.
pub record Res : Type 0 where
  pub body : Option Memory
  pub len : ℕ
  pub allocated : ℕ

abbrev pub zero_res : Res
zero_res = record { body = none; len = 0; allocated = 0 }

-- A call of the callback: the `size * nmemb` bytes of `piece`, and whether `realloc` finds a given
-- number of bytes at this time.
pub record Chunk : Type 0 where
  pub piece : Bytes
  pub grants : ℕ → Bool

-- The pieces of one answer, what new memory contains, and whether `malloc` finds memory.
pub record Heap : Type 0 where
  pub fresh : Memory
  pub malloc_ok : Bool

abbrev pub enomem : ℕ
enomem = 12

-- The callback from `memcpy` on.
unfoldable pub append_chunk : Res → Bytes → Outcome (Res × ℕ)
append_chunk res bytes = elim res.body [
  | none ↦ crash out_of_bounds
  | some m ↦
      check (ltb (res.len + length bytes) res.allocated) out_of_bounds
      >> ok (
        record res {
          body = some (store_bytes (store_bytes m res.len bytes) (res.len + length bytes) (0 ∷ []));
          len = res.len + length bytes;
        },
        length bytes,
      )
]

-- `realloc`, of NULL as well; it keeps what the object holds.
abbrev pub grown : Memory → Res → ℕ → Res
grown fresh res n = record res {
  body = some (elim res.body [ none ↦ fresh | some m ↦ m ]);
  allocated = n;
}

unfoldable pub write_callback : Memory → Res → Chunk → Outcome (Res × ℕ)
unfolding append_chunk
write_callback fresh res chunk =
    let add_len = length chunk.piece in
    let doubled = (res.allocated * 2 + add_len) % 2 ^ 64 in
    if leb res.allocated ((add_len + res.len + 2) % 2 ^ 64)
    then (if chunk.grants doubled
        then append_chunk (grown fresh res doubled) chunk.piece
        else ok (res, 0))
    else append_chunk res chunk.piece

-- libcurl calls the callback for each piece, and gives up where it returns another number than that
-- of the bytes it was given.
unfoldable pub deliver : Memory → Res → List Chunk → Outcome (Res × Bool)
unfolding write_callback
deliver fresh res [] = ok (res, true)
deliver fresh res (chunk ∷ chunks) = do
  (res', n) ← write_callback fresh res chunk
  if n == length chunk.piece then deliver fresh res' chunks else ok (res', false)

unfoldable pub tg_api_allocate_res : Heap → Res → Outcome (Res × Ret)
tg_api_allocate_res heap res = elim res.body [
  | none ↦ ok (
      if heap.malloc_ok
      then (record { body = some heap.fresh; len = 0; allocated = 0x1000 }, success)
      else (zero_res, fail enomem))
  | some m ↦ if res.allocated == 0 then crash aborted else ok (record res { len = 0 }, success)
]
