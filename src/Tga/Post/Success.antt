-- ===== src/Tga/Post/Success.antt =====
-- Where nothing outside of the code fails, a request succeeds.
use gnuweeb_bot.Base.{
  ℕ, ◌+◌, ◌*◌, ◌%◌, ◌^◌, ◌≤◌, ◌≡◌, ◌≢◌, ◌∙◌, refl, sym, true, Bool-cases, inl, inr, Option, some,
  List, [], ◌∷◌, ◌++◌, append-nil, append_assoc, length-append, arith, leb, ◌==◌, ==_refl, ==_iff,
  length, Bytes, Outcome, ok, All,
}
use gnuweeb_bot.Server.State.{Memory, success}
use gnuweeb_bot.Admin.{head_byte}
use gnuweeb_bot.Tga.Response.{Res, Chunk, Heap, grown, write_callback, deliver, tg_api_allocate_res}
use gnuweeb_bot.Tga.Response.Holds.{Holds, Fair, pieces, append_chunk-Holds}
use gnuweeb_bot.Tga.Post.{Handle, Sent, Curl, Posted, perform, post_with, post_checked, tg_api_post}
use gnuweeb_bot.Tga.Post.Url.{make_url-UrlOf}
use gnuweeb_bot.Tga.Post.Answer.{Ready, tg_api_allocate_res-Allocates}

-- `realloc` finds the memory that an answer of `total` bytes may need.
abbrev pub Generous : ℕ → Chunk → Type 0
Generous total chunk = (n : ℕ) → n ≤ 3 * total + 4 → chunk.grants n ≡ true

write_callback_lem :
    (fresh : Memory) (res : Res) (s : Bytes) (chunk : Chunk) (total : ℕ)
    → Holds res s
    → Fair chunk
    → Generous total chunk
    → length s + length chunk.piece ≤ total
    → (res' : Res) × (write_callback fresh res chunk ≡ ok (res', length chunk.piece))
      × Holds res' (s ++ chunk.piece)
unfolding write_callback
write_callback_lem fresh res s chunk total h fair generous fits =
    elim (Bool-cases (leb res.allocated ((length chunk.piece + res.len + 2) % 2 ^ 64))) [
      | inr free ↦
          rw free
            (append_chunk-Holds res s chunk.piece h (ground (arith, h.bounded, fair.0, h.room)))
      | inl full ↦
          let doubled : ℕ = (res.allocated * 2 + length chunk.piece) % 2 ^ 64 in
          let granted : chunk.grants doubled ≡ true =
            generous doubled (ground (arith, h.bounded, h.size, fair.0, h.room)) in
          rw (full, granted)
            (append_chunk-Holds (grown fresh res doubled) s chunk.piece
              (record {
                memory = h.memory;
                body = rw h.body refl;
                text = h.text;
                size = h.size;
                room = omega (arith, h.bounded, fair.0, h.room);
                bounded = fair.1 doubled granted;
                stop = h.stop;
              })
              (omega (arith, h.bounded, fair.0, h.room)))
    ]

deliver_lem :
    (fresh : Memory) (res : Res) (s : Bytes) (chunks : List Chunk) (total : ℕ)
    → Holds res s
    → All Fair chunks
    → All (Generous total) chunks
    → length s + length (pieces chunks) ≤ total
    → (res' : Res) × (deliver fresh res chunks ≡ ok (res', true)) × Holds res' (s ++ pieces chunks)
unfolding deliver
deliver_lem fresh res s [] total h fair generous fits = (res, refl, rw append-nil h)
deliver_lem fresh res s (chunk ∷ chunks) total h fair generous fits =
    let sizes = length-append chunk.piece (pieces chunks) in
    let (res₁, run₁, h₁) =
      write_callback_lem fresh res s chunk total h fair.0 generous.0 (omega (arith, sizes)) in
    let (res', run, h') =
      deliver_lem fresh res₁ (s ++ chunk.piece) chunks total h₁ fair.1 generous.1
        (omega (arith, sizes, length-append s chunk.piece)) in
    rw (run₁, ==_refl (length chunk.piece), run) (res', refl, rw append_assoc at h')

-- What the system and the other side grant: memory, a handle of libcurl, a transfer that succeeds
-- and whose pieces are objects of the address space.
pub record Granted (curl : Curl) : Type 0 where
  pub malloc_ok : curl.heap.malloc_ok ≡ true
  pub init_ok : curl.init_ok ≡ true
  pub succeeds : (sent : Sent) → (curl.perform sent).succeeds ≡ true
  pub fair : (sent : Sent) → All Fair (curl.perform sent).chunks
  pub generous :
      (sent : Sent)
      → All (Generous (length (pieces (curl.perform sent).chunks))) (curl.perform sent).chunks

tg_api_allocate_res_lem :
    (heap : Heap) (res : Res)
    → heap.malloc_ok ≡ true
    → Ready res
    → (res' : Res) × (tg_api_allocate_res heap res ≡ ok (res', success)) × Holds res' []
tg_api_allocate_res_lem heap res found ready = elim (tg_api_allocate_res-Allocates heap res ready) [
  | inl (res', run, h) ↦ (res', run, h)
  | inr (missing, run) ↦ absurd (ground (arith, sym found ∙ missing))
]

-- A request that is answered.
abbrev pub Succeeds : Curl → Outcome Posted → Type 0
Succeeds curl m =
    (h' : Handle) × (sent : Sent) × (m ≡ ok (h', success, some sent))
    × Holds h'.res (pieces (curl.perform sent).chunks)

post_with-Succeeds :
    (curl : Curl) (h : Handle) (token method : Bytes)
    → Granted curl
    → Ready h.res
    → Succeeds curl (post_with curl h token method)
unfolding post_with perform
post_with-Succeeds curl h token method granted ready =
    let (res, run, held) = tg_api_allocate_res_lem curl.heap h.res granted.malloc_ok ready in
    let (url, made, _) = make_url-UrlOf token method in
    let sent : Sent = record { url = url; fields = h.body; type = h.content_type } in
    let chunks = (curl.perform sent).chunks in
    let (res', run', held') =
      deliver_lem curl.heap.fresh res [] chunks (length (pieces chunks)) held (granted.fair sent)
        (granted.generous sent) (omega arith) in
    simp (run, made, granted.init_ok, run', granted.succeeds sent)
      (record h { res = res' }, sent, refl, held')

post_checked-Succeeds :
    (curl : Curl) (h : Handle) (token method : Bytes) (m t : Option Bytes)
    → Granted curl
    → Ready h.res
    → m ≡ some method
    → t ≡ some token
    → head_byte token ≢ 0
    → Succeeds curl (post_checked curl h m t)
unfolding post_checked
post_checked-Succeeds curl h token method m t granted ready em et ne =
    elim (Bool-cases (head_byte token == 0)) [
      | inl empty ↦ absurd (ne ((==_iff (head_byte token) 0).0 empty))
      | inr more ↦ rw (em, et, more) (post_with-Succeeds curl h token method granted ready)
    ]

-- With a method and a token that is not empty, `tg_api_post` returns 0 and its buffer holds the
-- whole answer, in pieces of any number, where libcurl gives a handle and a transfer that succeeds,
-- and where memory is found: `malloc` and `realloc` give what they are asked for up to four bytes
-- more than three times the answer.
pub tg_api_post-Succeeds :
    (curl : Curl) (h : Handle) (token method : Bytes)
    → Granted curl
    → Ready h.res
    → h.token ≡ some token
    → h.method ≡ some method
    → head_byte token ≢ 0
    → Succeeds curl (tg_api_post curl h)
unfolding tg_api_post
tg_api_post-Succeeds curl h token method granted ready token_is method_is ne =
    post_checked-Succeeds curl h token method h.method h.token granted ready method_is token_is ne
