-- ===== src/Tga/Body/Reads.antt =====
-- The ids that a receiver reads from a body are those of the struct.
use gnuweeb_bot.Base.{◌^◌, ◌<◌, ◌≡◌, [], ◌∷◌, Bytes, codes, ok}
use gnuweeb_bot.Text.Decimal.{
  read_u64, read_i64, IsInt64, print_u64, print_i64, read_u64-print_u64, read_i64-print_i64,
}
use gnuweeb_bot.Tga.Form.{form_fields}
use gnuweeb_bot.Tga.Body.{DeleteMsg, delete_msg_body}
use gnuweeb_bot.Tga.Body.Fields.{delete_msg_body-Tells}

-- Its fields are a chat and a message, and their digits are read as those of the struct.
pub record Reads (ctx : DeleteMsg) (b : Bytes) : Type 0 where
  pub chat : Bytes
  pub message : Bytes
  pub fields : form_fields b ≡ (codes "chat_id", chat) ∷ (codes "message_id", message) ∷ []
  pub chat_read : read_i64 chat ≡ ctx.chat_id
  pub message_read : read_u64 message ≡ ctx.message_id

-- For every `int64_t` chat and `uint64_t` message, the body of `deleteMessage` is made inside of its
-- buffer; its receiver finds two fields, and reads from their decimal digits the chat and the
-- message that were given, a negative chat included.
pub delete_msg_body-Reads :
    (ctx : DeleteMsg)
    → IsInt64 ctx.chat_id
    → ctx.message_id < 2 ^ 64
    → (b : Bytes) × (delete_msg_body ctx ≡ ok b) × Reads ctx b
delete_msg_body-Reads ctx hc hm =
    let (b, run, fields) = delete_msg_body-Tells ctx in
    (
      b,
      run,
      record {
        chat = print_i64 ctx.chat_id;
        message = print_u64 ctx.message_id;
        fields = fields;
        chat_read = read_i64-print_i64 ctx.chat_id hc;
        message_read = read_u64-print_u64 ctx.message_id hm;
      },
    )
