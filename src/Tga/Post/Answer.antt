-- ===== src/Tga/Post/Answer.antt =====
-- What a request that succeeds has sent, and what its handle holds afterwards.
use gnuweeb_bot.Base.{
  ℕ, ◌≡◌, ◌≢◌, refl, false, Bool-cases, inl, inr, ◌⊎◌, Option, none, some, [], arith, ◌==◌, ==_iff,
  Bytes, Outcome, ok, All,
}
use gnuweeb_bot.Server.State.{Ret, success, fail, einval}
use gnuweeb_bot.Admin.{head_byte}
use gnuweeb_bot.Tga.Response.{Res, zero_res, Heap, enomem, tg_api_allocate_res}
use gnuweeb_bot.Tga.Response.Holds.{Holds, Fair, pieces, deliver-Received}
use gnuweeb_bot.Tga.Post.{
  Handle, Sent, Curl, Posted, perform, post_with, post_checked, tg_api_post, ebadmsg,
}
use gnuweeb_bot.Tga.Post.Url.{UrlOf, make_url-UrlOf}

-- The buffer of a handle is not allocated, or holds a text.
abbrev pub Ready : Res → Type 0
Ready res = (res.body ≡ none) ⊎ ((s : Bytes) × Holds res s)

-- The pieces of every answer are objects of the address space.
abbrev pub FairCurl : Curl → Type 0
FairCurl curl = (sent : Sent) → All Fair (curl.perform sent).chunks

-- What is known of a request that was made: it goes to the URL of the token and the method with the
-- body and the type of the handle, and the pieces of its answer are in the buffer.
pub record Delivered (curl : Curl) (h : Handle) (h' : Handle) (sent : Sent) : Type 0 where
  pub token : Bytes
  pub method : Bytes
  pub token_is : h.token ≡ some token
  pub method_is : h.method ≡ some method
  pub not_empty : head_byte token ≢ 0
  pub url : UrlOf token method sent.url
  pub fields : sent.fields ≡ h.body
  pub type : sent.type ≡ h.content_type
  pub answer : Holds h'.res (pieces (curl.perform sent).chunks)

-- The call returns; the buffer is ready for the next one, and a success has made a request.
abbrev pub Answers : Curl → Handle → Outcome Posted → Type 0
Answers curl h m =
    (h' : Handle) × (ret : Ret) × (sent : Option Sent) × (m ≡ ok (h', ret, sent))
    × Ready h'.res
    × (ret ≡ success → (s : Sent) × (sent ≡ some s) × Delivered curl h h' s)

refused :
    (curl : Curl) (h h' : Handle) (e : ℕ) → Ready h'.res → Answers curl h (ok (h', fail e, none))
refused curl h h' e ready = (h', fail e, none, refl, ready, λ f. absurd (ground arith))

-- An empty buffer after `tg_api_allocate_res`, or none and an error.
abbrev pub Allocates : Heap → Res → Type 0
Allocates heap res =
    ((res' : Res) × (tg_api_allocate_res heap res ≡ ok (res', success)) × Holds res' [])
    ⊎ ((heap.malloc_ok ≡ false) × (tg_api_allocate_res heap res ≡ ok (zero_res, fail enomem)))

pub tg_api_allocate_res-Allocates : (heap : Heap) (res : Res) → Ready res → Allocates heap res
unfolding tg_api_allocate_res
tg_api_allocate_res-Allocates heap res (inl empty) = elim (Bool-cases heap.malloc_ok) [
  | inl found ↦
      rw (empty, found)
        (inl (
          _,
          refl,
          record {
            memory = heap.fresh;
            body = refl;
            text = refl;
            size = refl;
            room = omega arith;
            bounded = omega arith;
            stop = λ l. absurd (omega arith);
          },
        ))
  | inr missing ↦ rw (empty, missing) (inr (refl, refl))
]
tg_api_allocate_res-Allocates heap res (inr (s, h)) = elim (Bool-cases (res.allocated == 0)) [
  | inl zero ↦ absurd (omega (arith, h.room, (==_iff _ _).0 zero))
  | inr more ↦
      rw (h.body, more)
        (inl (
          _,
          refl,
          record {
            memory = h.memory;
            body = refl;
            text = refl;
            size = refl;
            room = omega (arith, h.room);
            bounded = h.bounded;
            stop = λ l. absurd (omega arith);
          },
        ))
]

module _ (curl : Curl) (fair : FairCurl curl) (h : Handle) (token method : Bytes)
    (token_is : h.token ≡ some token) (method_is : h.method ≡ some method)
    (not_empty : head_byte token ≢ 0) where
  perform-Answers :
      (res : Res) (url : Bytes)
      → Holds res []
      → UrlOf token method url
      → Answers curl h (
          perform curl
            (record h { res = res })
            (record { url = url; fields = h.body; type = h.content_type }))
  unfolding perform
  perform-Answers res url held good =
      let sent : Sent = record { url = url; fields = h.body; type = h.content_type } in
      let (res', all, t, run, held', whole) =
        deliver-Received curl.heap.fresh res [] (curl.perform sent).chunks held (fair sent) in
      elim (Bool-cases all) [
        | inr cut ↦
            rw (run, cut)
              (
                record h { res = res' },
                fail ebadmsg,
                some sent,
                refl,
                inr (t, held'),
                λ f. absurd (ground arith),
              )
        | inl every ↦ elim (Bool-cases (curl.perform sent).succeeds) [
          | inr bad ↦
              rw (run, every, bad)
                (
                  record h { res = res' },
                  fail ebadmsg,
                  some sent,
                  refl,
                  inr (t, held'),
                  λ f. absurd (ground arith),
                )
          | inl good_end ↦
              rw (run, every, good_end)
                (
                  record h { res = res' },
                  success,
                  some sent,
                  refl,
                  inr (t, held'),
                  λ f. (
                    sent,
                    refl,
                    record {
                      token = token;
                      method = method;
                      token_is = token_is;
                      method_is = method_is;
                      not_empty = not_empty;
                      url = good;
                      fields = refl;
                      type = refl;
                      answer = rw (whole every) at held';
                    },
                  ),
                )
        ]
      ]

  post_with-Answers : Ready h.res → Answers curl h (post_with curl h token method)
  unfolding post_with
  post_with-Answers ready = elim (tg_api_allocate_res-Allocates curl.heap h.res ready) [
    | inr (missing, run) ↦ rw run (refused curl h (record h { res = zero_res }) enomem (inl refl))
    | inl (res, run, held) ↦
        let (url, made, good) = make_url-UrlOf token method in
        elim (Bool-cases curl.init_ok) [
          | inl found ↦ simp (run, made, found) (perform-Answers res url held good)
          | inr missing ↦
              simp (run, made, missing)
                (refused curl h (record h { res = res }) enomem (inr ([], held)))
        ]
  ]

post_checked-Answers :
    (curl : Curl) (h : Handle) (method token : Option Bytes)
    → FairCurl curl
    → Ready h.res
    → h.method ≡ method
    → h.token ≡ token
    → Answers curl h (post_checked curl h method token)
unfolding post_checked
post_checked-Answers curl h none token fair ready e f = refused curl h h einval ready
post_checked-Answers curl h (some method) none fair ready e f = refused curl h h einval ready
post_checked-Answers curl h (some method) (some token) fair ready e f =
    elim (Bool-cases (head_byte token == 0)) [
      | inl empty ↦ rw empty (refused curl h h einval ready)
      | inr more ↦
          rw more (post_with-Answers curl fair h token method f e (λ z. ground arith) ready)
    ]

-- With a handle whose buffer is not allocated or holds a text, with pieces of at most 2 ^ 62 bytes
-- and a `realloc` that gives no larger object, `tg_api_post` returns and leaves the buffer so for the
-- next call, whatever the token, the method, libcurl and the memory are. Where it returns 0 it has
-- made one request, to the URL of its token and method (cut where that has more than 510 bytes), with
-- its body and its content type, and its buffer holds the pieces of the answer in their order.
pub tg_api_post-Answers :
    (curl : Curl) (h : Handle) → FairCurl curl → Ready h.res → Answers curl h (tg_api_post curl h)
unfolding tg_api_post
tg_api_post-Answers curl h fair ready =
    post_checked-Answers curl h h.method h.token fair ready refl refl
