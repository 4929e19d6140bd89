-- ===== src/Tga/Response/Holds.antt =====
-- The buffer for an answer holds the text that has come so far, and stays inside of its object.
use gnuweeb_bot.Base.{
  ℕ, ◌+◌, ◌*◌, ◌%◌, ◌^◌, ◌≤◌, ◌<◌, ◌≡◌, ◌∙◌, refl, ap, sym, Bool, true, false, Bool-cases, some,
  List, [], ◌∷◌, ◌++◌, append-nil, append_assoc, arith, leb, ◌==◌, ==_refl, lt→ltb, length,
  length-append, Bytes, ok, All, inl, inr, ◌⊎◌,
}
use gnuweeb_bot.Server.State.{Memory, store_bytes, load_bytes}
use gnuweeb_bot.Server.Memory.{load-store_behind, load_same, store_below}
use gnuweeb_bot.Tga.Response.{Res, Chunk, append_chunk, grown, write_callback, deliver}

-- The object has room for the text and a 0, its size is one that `realloc` gives, and a
-- 0 stands behind a text that is not empty.
pub record Holds (res : Res) (s : Bytes) : Type 0 where
  pub memory : Memory
  pub body : res.body ≡ some memory
  pub text : load_bytes memory 0 res.len ≡ s
  pub size : res.len ≡ length s
  pub room : res.len < res.allocated
  pub bounded : res.allocated ≤ 2 ^ 62
  pub stop : 1 ≤ length s → memory (length s) ≡ 0

-- The piece is an object of the address space, and `realloc` gives no object beyond it.
abbrev pub Fair : Chunk → Type 0
Fair chunk = (length chunk.piece ≤ 2 ^ 62) × ((n : ℕ) → chunk.grants n ≡ true → n ≤ 2 ^ 62)

pub append_chunk-Holds :
    (res : Res) (s bytes : Bytes)
    → Holds res s
    → res.len + length bytes < res.allocated
    → (res' : Res) × (append_chunk res bytes ≡ ok (res', length bytes)) × Holds res' (s ++ bytes)
unfolding append_chunk
append_chunk-Holds res s bytes h room =
    let n = res.len + length bytes in
    let m' = store_bytes h.memory res.len bytes in
    let m'' = store_bytes m' n (0 ∷ []) in
    let total : n ≡ length (s ++ bytes) = omega (arith, h.size, length-append s bytes) in
    let stop : m'' n ≡ 0 = ground arith in
    rw (h.body, lt→ltb n res.allocated room)
      (
        record res { body = some m''; len = n },
        refl,
        record {
          memory = m'';
          body = refl;
          text =
              load_same m'' m' 0 n (λ i lo hi. store_below m' n (0 ∷ []) i (omega arith))
              ∙ load-store_behind h.memory s bytes res.len h.text h.size;
          size = total;
          room = room;
          bounded = h.bounded;
          stop = λ _. ap m'' (sym total) ∙ stop;
        },
      )

-- What a call of the callback does: it stores the piece, or memory is refused and nothing changes.
abbrev pub Stored : Memory → Res → Bytes → Chunk → Type 0
Stored fresh res s chunk =
    ((res' : Res) × (write_callback fresh res chunk ≡ ok (res', length chunk.piece))
      × Holds res' (s ++ chunk.piece))
    ⊎ (write_callback fresh res chunk ≡ ok (res, 0))

write_callback-Stored :
    (fresh : Memory) (res : Res) (s : Bytes) (chunk : Chunk)
    → Holds res s
    → Fair chunk
    → Stored fresh res s chunk
unfolding write_callback
write_callback-Stored fresh res s chunk h fair =
    elim (Bool-cases (leb res.allocated ((length chunk.piece + res.len + 2) % 2 ^ 64))) [
      | inr free ↦ rw free (inl (append_chunk-Holds res s chunk.piece h (enough free)))
      | inl full ↦
          elim (Bool-cases (chunk.grants ((res.allocated * 2 + length chunk.piece) % 2 ^ 64))) [
            | inr refused ↦ rw (full, refused) (inr refl)
            | inl granted ↦
                rw (full, granted)
                  (inl (
                    append_chunk-Holds (grown fresh res _) s chunk.piece (larger granted)
                      (omega (arith, h.bounded, fair.0, h.room))))
          ]
    ]
  where
    enough :
        leb res.allocated ((length chunk.piece + res.len + 2) % 2 ^ 64) ≡ false
        → res.len + length chunk.piece < res.allocated
    enough free = ground (arith, h.bounded, fair.0, h.room)

    larger :
        chunk.grants ((res.allocated * 2 + length chunk.piece) % 2 ^ 64) ≡ true
        → Holds (grown fresh res ((res.allocated * 2 + length chunk.piece) % 2 ^ 64)) s
    larger granted = record {
      memory = h.memory;
      body = rw h.body refl;
      text = h.text;
      size = h.size;
      room = omega (arith, h.bounded, fair.0, h.room);
      bounded = fair.1 _ granted;
      stop = h.stop;
    }

-- The text of the pieces.
abbrev pub pieces : List Chunk → Bytes
pieces [] = []
pieces (chunk ∷ chunks) = chunk.piece ++ pieces chunks

-- A transfer is carried out, and a text is held; it is the text before and all pieces where each
-- call of the callback has returned the number of its bytes.
abbrev pub Received : Memory → Res → Bytes → List Chunk → Type 0
Received fresh res s chunks =
    (res' : Res) × (all : Bool) × (t : Bytes) × (deliver fresh res chunks ≡ ok (res', all))
    × Holds res' t
    × (all ≡ true → t ≡ s ++ pieces chunks)

nil_of_length : (p : Bytes) → (0 == length p) ≡ true → p ≡ []
nil_of_length [] e = refl
nil_of_length (c ∷ p) e = ground arith

-- Whether `realloc` finds memory or not, where pieces and objects have at most 2 ^ 62 bytes, the
-- callback writes inside of the buffer, and where no call has failed the buffer then holds the text
-- of the pieces in their order.
pub deliver-Received :
    (fresh : Memory) (res : Res) (s : Bytes) (chunks : List Chunk)
    → Holds res s
    → All Fair chunks
    → Received fresh res s chunks
unfolding deliver
deliver-Received fresh res s [] h fair = (res, true, s, refl, h, λ _. sym (append-nil s))
deliver-Received fresh res s (chunk ∷ chunks) h fair =
    elim (write_callback-Stored fresh res s chunk h fair.0) [
      | inl (res', run, h') ↦
          let (last, all, t, run', held, whole) =
            deliver-Received fresh res' (s ++ chunk.piece) chunks h' fair.1 in
          rw (run, ==_refl (length chunk.piece))
            (last, all, t, run', held, λ e. whole e ∙ append_assoc s chunk.piece (pieces chunks))
      | inr run ↦ elim (Bool-cases (0 == length chunk.piece)) [
        | inl none_left ↦
            let (last, all, t, run', held, whole) = deliver-Received fresh res s chunks h fair.1 in
            rw (run, none_left)
              (
                last,
                all,
                t,
                run',
                held,
                λ e.
                    whole e
                    ∙ ap (λ (p : Bytes). s ++ (p ++ pieces chunks))
                        (sym (nil_of_length chunk.piece none_left)),
              )
        | inr some_left ↦ rw (run, some_left) (res, false, s, refl, h, λ e. absurd (ground arith))
      ]
    ]
