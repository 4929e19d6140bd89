-- ===== src/Tga/Body/Send.antt =====
-- The body of `sendMessage`, whose text is percent-encoded and cut where the buffer ends.
use gnuweeb_bot.Base.{
  ℕ, zero, suc, ◌-◌, ◌/◌, ◌≤◌, ◌≡◌, ◌≢◌, ◌∙◌, refl, ap, true, false, some, List, [], ◌∷◌, ◌++◌,
  append_assoc, append-nil, arith, ◌==◌, length, length-append, take, strnlen, strnlen-le, Bytes,
  codes, IsByte, c_text, take-strnlen, ok, All,
}
use gnuweeb_bot.Text.Decimal.{print_u64, print_i64, length-print_u64-le}
use gnuweeb_bot.Text.UrlEncode.{
  urlencode, url_decode, url_decode-urlencode_raw, IsUrlSafe, urlencode-IsUrlSafe,
  length-urlencode-lt,
}
use gnuweeb_bot.Tga.Form.{Field, form_fields, IsValue, form_fields-append}
use gnuweeb_bot.Tga.Body.{
  SendMsg, ParseMode, off, html, markdown, other, put, chat_field, send_size, mode_field,
  send_msg_rest, send_msg_body,
}
use gnuweeb_bot.Tga.Body.Fields.{
  Part, chat_field-Part, with_field, put_ok, unless, put-unless-Grown, is_word, word_IsName,
  print_u64-IsValue,
}

-- The fields of the parse mode.
abbrev pub mode_fields : ParseMode → List Field
mode_fields off = []
mode_fields html = (codes "parse_mode", codes "html") ∷ []
mode_fields markdown = (codes "parse_mode", codes "markdown") ∷ []
mode_fields other = []

abbrev pub head_fields : SendMsg → List Field
head_fields ctx =
    (codes "chat_id", print_i64 ctx.chat_id)
      ∷ unless (ctx.reply_to_msg_id == 0)
          (codes "reply_to_message_id", print_u64 ctx.reply_to_msg_id)
    ++ mode_fields ctx.parse_mode

-- The fields of a body, and the text that its receiver decodes: that of the struct, cut behind
-- `limit` bytes.
pub record Sends (ctx : SendMsg) (b : Bytes) : Type 0 where
  pub value : Bytes
  pub limit : ℕ
  pub fields : form_fields b ≡ head_fields ctx ++ (codes "text", value) ∷ []
  pub decoded : url_decode false value ≡ take limit (c_text ctx.text)
  pub enough : 8192 ≤ limit

safe-IsValue : (s : Bytes) → All IsUrlSafe s → All IsValue s
safe-IsValue [] h = tt
safe-IsValue (c ∷ s) h = ((λ e. ground (arith, h.0)), safe-IsValue s h.1)

-- The parse mode behind the fields before it.
pub record Moded (mode : ParseMode) (p : Bytes) (fs : List Field) : Type 0 where
  pub text : Bytes
  pub field : mode_field mode ≡ some text
  pub run : put send_size p text 0 ≡ ok (p ++ text)
  pub part : Part (p ++ text) 90 (fs ++ mode_fields mode)

mode-Moded :
    (mode : ParseMode) (p : Bytes) (fs : List Field) → mode ≢ other → Part p 70 fs → Moded mode p fs
unfolding is_word
mode-Moded off p fs ne part = record {
  text = [];
  field = refl;
  run = put_ok send_size p [] 0 (omega (arith, part.size));
  part =
      rw (append-nil p, append-nil fs)
        (record { size = omega (arith, part.size); fields = part.fields });
}
mode-Moded html p fs ne part = record {
  text = codes "&parse_mode=html";
  field = refl;
  run = put_ok send_size p (codes "&parse_mode=html") 0 (omega (arith, part.size));
  part =
      with_field (codes "parse_mode") (codes "html") 8 part refl
        (safe-IsValue (codes "html") (refl, (refl, (refl, (refl, tt))))) (omega arith);
}
mode-Moded markdown p fs ne part = record {
  text = codes "&parse_mode=markdown";
  field = refl;
  run = put_ok send_size p (codes "&parse_mode=markdown") 0 (omega (arith, part.size));
  part =
      with_field (codes "parse_mode") (codes "markdown") 8 part refl
        (safe-IsValue (codes "markdown")
          (refl, (refl, (refl, (refl, (refl, (refl, (refl, (refl, tt)))))))))
        (omega arith);
}
mode-Moded other p fs ne part = absurd (ne refl)

-- What the text is cut to behind a body of `n` bytes.
abbrev text_limit : ℕ → ℕ
text_limit n = (send_size - n) / 3 - 1

take-IsByte : (s : Bytes) (n : ℕ) → All IsByte s → All IsByte (take n s)
take-IsByte s zero h = tt
take-IsByte [] (suc n) h = tt
take-IsByte (c ∷ s) (suc n) h = (h.0, take-IsByte s n h.1)

-- The text behind the other fields.
text-Sends :
    (ctx : SendMsg) (r : Bytes)
    → All IsByte ctx.text
    → Part r 90 (head_fields ctx)
    → let t : Bytes = r ++ codes "&text=" in
      let n : ℕ = strnlen ctx.text (text_limit (length t)) in
      (put send_size r (codes "&text=") 1 ≡ ok t)
      × (put send_size t (urlencode ctx.text n true) 1 ≡ ok (t ++ urlencode ctx.text n true))
      × Sends ctx (t ++ urlencode ctx.text n true)
unfolding is_word
text-Sends ctx r bytes part =
    let t : Bytes = r ++ codes "&text=" in
    let limit : ℕ = text_limit (length t) in
    let n : ℕ = strnlen ctx.text limit in
    let v : Bytes = urlencode ctx.text n true in
    let all_bytes : All IsByte (take n ctx.text) = take-IsByte ctx.text n bytes in
    let size : length t ≤ 96 = omega (arith, part.size, length-append r (codes "&text=")) in
    (
      put_ok send_size r (codes "&text=") 1 (omega (arith, part.size)),
      put_ok send_size t v 1
          (omega (arith, size, strnlen-le ctx.text limit, length-urlencode-lt ctx.text n true)),
      record {
        value = v;
        limit = limit;
        fields =
            ap form_fields (append_assoc r (codes "&text=") v)
            ∙ form_fields-append r (codes "text") v (word_IsName (codes "text") refl)
                (safe-IsValue v (urlencode-IsUrlSafe ctx.text n true all_bytes))
            ∙ ap (λ (fs : List Field). fs ++ (codes "text", v) ∷ []) part.fields;
        decoded = url_decode-urlencode_raw ctx.text n all_bytes ∙ take-strnlen ctx.text limit;
        enough = omega (arith, size);
      },
    )

-- For every chat, reply and text of bytes, and every parse mode but an invalid one, the body of
-- `sendMessage` is made inside of its buffer. Its receiver reads from it the chat, the message
-- replied to unless that is 0, the parse mode, and the text, which is cut behind at least 8192 bytes;
-- so no text, whatever characters it has, adds a field or changes another.
pub send_msg_body-Sends :
    (ctx : SendMsg)
    → All IsByte ctx.text
    → ctx.parse_mode ≢ other
    → (b : Bytes) × (send_msg_body ctx ≡ ok (some b)) × Sends ctx b
unfolding send_msg_body send_msg_rest is_word
send_msg_body-Sends ctx bytes ne =
    let replied =
      put-unless-Grown send_size (ctx.reply_to_msg_id == 0) (codes "reply_to_message_id")
        (print_u64 ctx.reply_to_msg_id) 20 (chat_field-Part ctx.chat_id) refl
        (print_u64-IsValue ctx.reply_to_msg_id) (length-print_u64-le ctx.reply_to_msg_id)
        (omega arith) in
    let moded = mode-Moded ctx.parse_mode replied.text _ ne replied.part in
    let (run, run', sends) = text-Sends ctx (replied.text ++ moded.text) bytes moded.part in
    simp
      (
        put_ok send_size [] (chat_field ctx.chat_id) 1
            (omega (arith, (chat_field-Part ctx.chat_id).size)),
        replied.run,
        moded.field,
        moded.run,
        run,
        run',
      )
      (_, refl, sends)
