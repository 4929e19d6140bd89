-- ===== src/Server/Fragments.antt =====
-- A packet that arrives in any number of parts (core/server.c).
use gnuweeb_bot.Base.{
  ℕ, ◌≤◌, ◌≡◌, ◌≢◌, refl, sym, ap, ◌∙◌, false, List, [], ◌∷◌, ◌++◌, append-nil, append_assoc, arith,
  length, Bytes, Outcome, ok, ◌>>=◌,
}
use mathlib.Core.Path.{subst}
use gnuweeb_bot.Server.State.{State, done, data_bufsiz}
use gnuweeb_bot.Server.Submit.{SubmitEnv}
use gnuweeb_bot.Server.Client.{handle_client_event}
use gnuweeb_bot.Server.Framing.{frame, Connected, event_waits}

-- What the parts are together; a part has at least one byte.
abbrev pub joined : List (ℕ × Bytes) → Bytes
joined [] = []
joined (part ∷ parts) = part.0 ∷ part.1 ++ joined parts

-- One event of the descriptor for each part.
unfoldable pub receive_all : SubmitEnv → ℕ → State → List (ℕ × Bytes) → Outcome State
receive_all env fd st [] = ok st
receive_all env fd st (part ∷ parts) = do
  (st', ret) ← handle_client_event env (done (part.0 ∷ part.1)) fd st false
  receive_all env fd st' parts

joined_more : (parts : List (ℕ × Bytes)) (rest : Bytes) → rest ≢ [] → joined parts ++ rest ≢ []
joined_more [] rest more = more
joined_more (part ∷ parts) rest more = λ q. ground arith

module _ (env : SubmitEnv) (i fd : ℕ) (rest p : Bytes) (more : rest ≢ [])
    (small : length p ≤ data_bufsiz) where
  -- However the bytes of a packet are cut into parts, as long as some are missing no event crashes,
  -- and the channel has received exactly the bytes of all parts in their order.
  pub parts_wait :
      (parts : List (ℕ × Bytes)) (st : State) (bs : Bytes)
      → Connected st i fd bs
      → (bs ++ joined parts) ++ rest ≡ frame p
      → (st' : State) × (receive_all env fd st parts ≡ ok st')
        × Connected st' i fd (bs ++ joined parts)
  unfolding receive_all
  parts_wait [] st bs con split =
      (st, refl, subst (λ (xs : Bytes). Connected st i fd xs) (sym (append-nil bs)) con)
  parts_wait ((b, chunk) ∷ parts) st bs con split =
      let shift : (bs ++ b ∷ chunk) ++ joined parts ≡ bs ++ (b ∷ chunk ++ joined parts) =
        append_assoc bs (b ∷ chunk) (joined parts) in
      let whole : ((bs ++ b ∷ chunk) ++ joined parts) ++ rest ≡ frame p =
        ap (λ (xs : Bytes). xs ++ rest) shift ∙ split in
      let split' : (bs ++ b ∷ chunk) ++ (joined parts ++ rest) ≡ frame p =
        sym (append_assoc (bs ++ b ∷ chunk) (joined parts) rest) ∙ whole in
      let (run, con') =
        event_waits env st i fd bs con b chunk (joined parts ++ rest) p split'
          (joined_more parts rest more) small in
      let (st', runs, con'') = parts_wait parts _ (bs ++ b ∷ chunk) con' whole in
      (st', rw run runs, subst (λ (xs : Bytes). Connected st' i fd xs) shift con'')
