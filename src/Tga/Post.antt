-- ===== src/Tga/Post.antt =====
-- `tg_api_post` of lib/tg_api.c: from the handle to the URL, the transfer and its result.
pub mod Url
pub mod Answer
pub mod Success
use gnuweeb_bot.Base.{
  ℕ, ◌+◌, ◌-◌, Bool, true, false, Option, none, some, List, [], ◌∷◌, ◌++◌, ltb, leb, ◌==◌,
  if◌then◌else◌, length, Bytes, codes, Outcome, ok, check, out_of_bounds, ◌>>=◌, ◌>>◌,
}
use gnuweeb_bot.Server.State.{Ret, success, fail, einval}
use gnuweeb_bot.Admin.{head_byte}
use gnuweeb_bot.Tga.Response.{Res, zero_res, Chunk, Heap, enomem, deliver, tg_api_allocate_res}

-- `content_type_t`
pub data ContentType : Type 0 where
  app_x_www_form_urlencoded app_json : ContentType

-- `tga_handle_t` with its `tga_req_t`; `none` is NULL.
pub record Handle : Type 0 where
  pub token : Option Bytes
  pub method : Option Bytes
  pub body : Option Bytes
  pub res : Res
  pub content_type : ContentType

-- The request as libcurl gets it.
pub record Sent : Type 0 where
  pub url : Bytes
  pub fields : Option Bytes
  pub type : ContentType

-- What `curl_easy_perform` finds: the pieces of the answer that come, and whether the transfer
-- succeeds where no call of the callback makes it fail.
pub record Transfer : Type 0 where
  pub chunks : List Chunk
  pub succeeds : Bool

-- libcurl and the memory: whether a handle is allocated, and the transfer of a request.
pub record Curl : Type 0 where
  pub heap : Heap
  pub init_ok : Bool
  pub perform : Sent → Transfer

abbrev pub ebadmsg : ℕ
ebadmsg = 74

-- `tga_screate` of the header.
unfoldable pub tga_screate : Bytes → Handle
tga_screate token = record {
  token = some token;
  method = none;
  body = none;
  res = zero_res;
  content_type = app_x_www_form_urlencoded;
}

-- `sizeof(url)`
abbrev pub url_size : ℕ
url_size = 512

-- A loop that copies a text behind the URL, up to its 0; `true` where it has left for
-- `out_curl_start` because the URL is full.
unfoldable pub copy_url : Bytes → Bytes → Outcome (Bytes × Bool)
copy_url url [] = ok (url, false)
copy_url url (c ∷ s) =
    let url' = url ++ c ∷ [] in
    let rest = copy_url url' s in
    if c == 0 then ok (url, false) else (do
      check (ltb (length url) url_size) out_of_bounds
      if leb (url_size - 2) (length url')
          then check (ltb (length url') url_size) out_of_bounds >> ok (url', true)
          else rest)

-- The text of the URL, without the 0 that is written behind it.
unfoldable pub make_url : Bytes → Bytes → Outcome Bytes
unfolding copy_url
make_url token method = do
  (url, full) ← copy_url (codes "https://api.telegram.org/bot") token
  if full then ok url else (do
    check (ltb (length url) url_size) out_of_bounds
    (url', full') ← copy_url (url ++ codes "/") method
    check (ltb (length url') url_size) out_of_bounds
    ok url')

-- The handle afterwards, what is returned, and the request that was made.
abbrev pub Posted : Type 0
Posted = Handle × Ret × Option Sent

-- From `curl_easy_perform` on.
unfoldable pub perform : Curl → Handle → Sent → Outcome Posted
unfolding deliver
perform curl h sent = do
  (res, all) ← deliver curl.heap.fresh h.res (curl.perform sent).chunks
  let succeeds = if all then (curl.perform sent).succeeds else false
  ok (record h { res = res }, (if succeeds then success else fail ebadmsg), some sent)

-- Behind the tests, with the token and the method.
unfoldable pub post_with : Curl → Handle → Bytes → Bytes → Outcome Posted
unfolding perform make_url tg_api_allocate_res
post_with curl h token method = do
  (res, ret) ← tg_api_allocate_res curl.heap h.res
  let h' = record h { res = res }
  elim ret [
    | fail e ↦ ok (h', fail e, none)
    | success ↦ (do
      url ← make_url token method
      if curl.init_ok
          then perform curl h' (record { url = url; fields = h.body; type = h.content_type })
          else ok (h', fail enomem, none))
  ]

-- The tests of the method and the token.
unfoldable pub post_checked : Curl → Handle → Option Bytes → Option Bytes → Outcome Posted
unfolding post_with
post_checked curl h none token = ok (h, fail einval, none)
post_checked curl h (some method) none = ok (h, fail einval, none)
post_checked curl h (some method) (some token) =
    if head_byte token == 0 then ok (h, fail einval, none) else post_with curl h token method

unfoldable pub tg_api_post : Curl → Handle → Outcome Posted
unfolding post_checked
tg_api_post curl h = post_checked curl h h.method h.token
