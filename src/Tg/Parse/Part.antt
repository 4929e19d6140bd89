-- ===== src/Tg/Parse/Part.antt =====
-- The parsers of a file, a sticker and an animation never return -ECANCELED.
use gnuweeb_bot.Base.{Option, none, some, Bytes, codes, arith}
use gnuweeb_bot.Tg.Json.{JsonApi}
use gnuweeb_bot.Tg.Fill.{Got, Ends, Ends-got, Ends-broke, Ends-after, Ends-inside}
use gnuweeb_bot.Tg.Event.{FileInfo, Media, Sticker}
use gnuweeb_bot.Tg.Info.{
  parse_tgevi_file, parse_tgevi_media, parse_tgevi_sticker, emoji_text, set_sticker_thumb,
  set_media_thumb, optional,
}
use gnuweeb_bot.Tg.Ids.{need, maybe}

module _ (api : JsonApi) where
  open api use {Json, get_ex, get_string, get_boolean, get_uint64}

  abbrev pub Done : {S : Type 0} → S × Got (Unit {0}) → Type 0
  Done m = Ends (λ _. Unit {0}) m

  pub parse_tgevi_file-Done : (j : Json) (f : FileInfo) → Done (parse_tgevi_file api j f)
  unfolding parse_tgevi_file
  parse_tgevi_file-Done j f = need api j (codes "file_id") _ _ λ i at-i.
      need api j (codes "file_unique_id") _ _ λ u at-u. need api j (codes "file_size") _ _ λ s at-s.
        maybe api (get_ex j (codes "width")) _ _ _ (Ends-got tt)
          (λ w. need api j (codes "height") _ _ λ h at-h. Ends-got tt)

  emoji_text-Done : (o : Option Bytes) (x : Sticker) → Done (emoji_text api o x)
  emoji_text-Done none x = Ends-broke (ground arith)
  emoji_text-Done (some e) x = Ends-got tt

  pub parse_tgevi_sticker-Done : (j : Json) (s : Sticker) → Done (parse_tgevi_sticker api j s)
  unfolding parse_tgevi_sticker
  parse_tgevi_sticker-Done j s = need api j (codes "width") s _ λ w at-w.
      need api j (codes "height") _ _ λ h at-h. need api j (codes "emoji") _ _ λ e at-e.
        Ends-after (emoji_text api (get_string e) _) _ (emoji_text-Done (get_string e) _) λ s' u q.
          need api j (codes "set_name") s' _ λ n at-n.
            need api j (codes "is_animated") _ _ λ m at-m.
              need api j (codes "file_id") _ _ λ i at-i.
                need api j (codes "file_unique_id") _ _ λ u' at-u.
                  need api j (codes "file_size") _ _ λ z at-z.
                    need api j (codes "thumb") _ _ λ t at-t.
                      Ends-inside (λ (x : Sticker). x.thumb) set_sticker_thumb
                        (parse_tgevi_file api t)
                        (record s' {
                          set_name = get_string n;
                          is_animated = get_boolean m;
                          file_id = get_string i;
                          file_unique_id = get_string u';
                          file_size = get_uint64 z;
                        })
                        (parse_tgevi_file-Done t s'.thumb) (λ f q. tt)

  pub parse_tgevi_media-Done : (j : Json) (m : Media) → Done (parse_tgevi_media api j m)
  unfolding parse_tgevi_media
  parse_tgevi_media-Done j m = need api j (codes "file_name") m _ λ n at-n.
      need api j (codes "mime_type") _ _ λ t at-t.
        Ends-after {Q = λ _. Unit {0}} _ _
          (maybe api (get_ex j (codes "width")) _ _ _ (Ends-got tt)
            (λ w. need api j (codes "height") _ _ λ h at-h. Ends-got tt))
          λ s u q. need api j (codes "file_id") _ _ λ i at-i.
            need api j (codes "file_unique_id") _ _ λ u' at-u.
              need api j (codes "file_size") _ _ λ z at-z.
                maybe api (get_ex j (codes "thumb")) _ _ _ (Ends-got tt) (λ t'.
                  Ends-inside (λ (x : Media). x.thumb) set_media_thumb (parse_tgevi_file api j)
                    (record s {
                      title = optional api j (codes "title");
                      performer = optional api j (codes "performer");
                      file_id = get_string i;
                      file_unique_id = get_string u';
                      file_size = get_uint64 z;
                    })
                    (parse_tgevi_file-Done j s.thumb) (λ f q. tt))
