-- ===== src/Tga/Post/Url.antt =====
-- The URL of a request fits in its buffer, and is the one that the token and the method make.
use gnuweeb_bot.Base.{
  ◌+◌, ◌≤◌, ◌<◌, ◌≡◌, ◌∙◌, refl, ap, sym, Bool, true, false, Bool-cases, inl, inr, [], ◌∷◌, ◌++◌,
  append-nil, append_assoc, arith, leb, lt→ltb, ◌==◌, length, length-append, Bytes, c_text, codes,
  ok,
}
use gnuweeb_bot.Tga.Post.{copy_url, make_url}

-- What a loop makes of the URL: the text behind it, cut where the buffer is full.
record Copied (url s u : Bytes) (full : Bool) : Type 0 where
  rest : Bytes
  whole : u ++ rest ≡ url ++ c_text s
  inside : length u ≤ 511
  cut : full ≡ true → 510 ≤ length u
  all : full ≡ false → rest ≡ []
  longer : length url ≤ length u
  early : length url ≤ 509 → length u ≤ 510
  open_end : length url ≤ 509 → full ≡ false → length u ≤ 509

abbrev Copies : Bytes → Bytes → Type 0
Copies url s = (u : Bytes) × (full : Bool) × (copy_url url s ≡ ok (u, full)) × Copied url s u full

stays : (url s : Bytes) → length url ≤ 510 → c_text s ≡ [] → Copied url s url false
stays url s h e = record {
  rest = [];
  whole = rw e refl;
  inside = omega arith;
  cut = λ f. absurd (ground arith);
  all = λ f. refl;
  longer = omega arith;
  early = λ l. omega arith;
  open_end = λ l f. l;
}

copy_url-Copied : (url s : Bytes) → length url ≤ 510 → Copies url s
unfolding copy_url
copy_url-Copied url [] h = (url, false, refl, stays url [] h refl)
copy_url-Copied url (c ∷ s) h = elim (Bool-cases (c == 0)) [
  | inl ends ↦ rw ends (url, false, refl, stays url (c ∷ s) h (rw ends refl))
  | inr more ↦ elim (Bool-cases (leb 510 (length (url ++ c ∷ [])))) [
    | inl full ↦
        rw
          (
            more,
            lt→ltb (length url) 512 (omega arith),
            full,
            lt→ltb (length (url ++ c ∷ [])) 512 (omega (arith, size)),
          )
          (
            url ++ c ∷ [],
            true,
            refl,
            record {
              rest = c_text s;
              whole = append_assoc url (c ∷ []) (c_text s) ∙ rw more refl;
              inside = omega (arith, size);
              cut = λ f. ground (arith, full);
              all = λ f. absurd (ground arith);
              longer = omega (arith, size);
              early = λ l. omega (arith, size);
              open_end = λ l f. absurd (ground arith);
            },
          )
    | inr free ↦
        let (u, f, run, q) = copy_url-Copied (url ++ c ∷ []) s (ground arith) in
        rw (more, lt→ltb (length url) 512 (omega arith), free)
          (
            u,
            f,
            run,
            record {
              rest = q.rest;
              whole = q.whole ∙ append_assoc url (c ∷ []) (c_text s) ∙ rw more refl;
              inside = q.inside;
              cut = q.cut;
              all = q.all;
              longer = omega (arith, size, q.longer);
              early = λ l. q.early (ground arith);
              open_end = λ l. q.open_end (ground arith);
            },
          )
  ]
]
  where
    size : length (url ++ c ∷ []) ≡ length url + 1
    size = length-append url (c ∷ [])

abbrev base : Bytes
base = codes "https://api.telegram.org/bot"

-- The URL that the API documents for a method.
abbrev pub api_url : Bytes → Bytes → Bytes
api_url token method = base ++ c_text token ++ codes "/" ++ c_text method

-- `u` is the URL cut at some place, not at all where it has at most 510 bytes.
pub record UrlOf (token method u : Bytes) : Type 0 where
  pub rest : Bytes
  pub prefix : u ++ rest ≡ api_url token method
  pub fits : length u < 512
  pub whole : length (api_url token method) ≤ 510 → u ≡ api_url token method

empty_rest : (u r w : Bytes) → u ++ r ≡ w → length w ≤ length u → u ≡ w
empty_rest u [] w e h = sym (append-nil u) ∙ e
empty_rest u (c ∷ r) w e h =
    absurd (omega (arith, ap (λ (t : Bytes). length t) e, length-append u (c ∷ r)))

-- For every token and method the URL is written inside of its 512 bytes, with its 0. It is the URL
-- that the API documents, or where that one has more than 510 bytes, a prefix of it.
pub make_url-UrlOf :
    (token method : Bytes) → (u : Bytes) × (make_url token method ≡ ok u) × UrlOf token method u
unfolding make_url
make_url-UrlOf token method =
    let (u, full, run, q) = copy_url-Copied base token (omega arith) in
    elim (Bool-cases full) [
      | inl cut ↦
          let rest = q.rest ++ codes "/" ++ c_text method in
          let prefix : u ++ rest ≡ api_url token method =
            sym (append_assoc u (q.rest ++ codes "/") (c_text method))
            ∙ ap (λ (t : Bytes). t ++ c_text method) (sym (append_assoc u q.rest (codes "/")))
            ∙ ap (λ (t : Bytes). t ++ codes "/" ++ c_text method) q.whole in
          rw (run, cut)
            (
              u,
              refl,
              record {
                rest = rest;
                prefix = prefix;
                fits = omega (arith, q.inside);
                whole =
                    λ h. empty_rest u rest (api_url token method) prefix (omega (arith, q.cut cut));
              },
            )
      | inr more ↦
          let named : u ≡ base ++ c_text token =
            sym (append-nil u) ∙ ap (λ (t : Bytes). u ++ t) (sym (q.all more)) ∙ q.whole in
          let slash : length (u ++ codes "/") ≡ length u + 1 = length-append u (codes "/") in
          let short : length u ≤ 509 = q.open_end (omega arith) more in
          let (u', full', run', q') =
            copy_url-Copied (u ++ codes "/") method (omega (arith, slash, short)) in
          let prefix : u' ++ q'.rest ≡ api_url token method =
            q'.whole ∙ ap (λ (t : Bytes). t ++ codes "/" ++ c_text method) named in
          rw
            (
              run,
              more,
              lt→ltb (length u) 512 (omega (arith, short)),
              run',
              lt→ltb (length u') 512 (omega (arith, q'.inside)),
            )
            (
              u',
              refl,
              record {
                rest = q'.rest;
                prefix = prefix;
                fits = omega (arith, q'.inside);
                whole = λ h. elim (Bool-cases full') [
                  | inl cut ↦
                      empty_rest u' q'.rest (api_url token method) prefix
                        (omega (arith, q'.cut cut))
                  | inr all ↦
                      sym (append-nil u') ∙ ap (λ (t : Bytes). u' ++ t) (sym (q'.all all)) ∙ prefix
                ];
              },
            )
    ]
