-- ===== src/Cli/Commands/Pipe.antt =====
-- Commands in a pipe, each of which reads what the one before has written and appends to a list in it.
use mathlib.Core.List.{append_assoc, append-nil}
use grafain.Prelude.{
  ℕ, ◌+◌, ◌%◌, ◌^◌, ◌<◌, ◌≤◌, ◌≡◌, refl, sym, ap, ◌∙◌, Bool, Option, none, some, List, [], ◌∷◌,
  ◌++◌, map, Bytes, length, arith, length-append,
}
use grafain.Prelude.BigEndian.{put_uint32, length-put_uint32}
use grafain.App.Extract.{Extract}
use grafain.App.Tx.{Tx}
use grafain.Cli.Stream.{write_tx, read_all}
use grafain.Cli.Stream.Laws.{append_to, read_tx-write_tx, write_tx-frame}
use grafain.Cli.Commands.{Outcome, Tools, get_tx, put_tx}

-- a command with the arguments A, of the mode and the chunks of its input and of its output
abbrev pub Command : Type 0 → Type 0
Command A = A → Option Bool → List Bytes → Bytes → Outcome × Bytes

-- the output of the last of the commands
abbrev pub pipe : {A : Type 0} → Command A → List A → Bytes → Bytes
pipe command [] buffer = buffer
pipe command (a ∷ args) buffer = pipe command args (command a none (buffer ∷ []) []).1

module _ {P S : Type 0} (X : Extract P) (marshal : Tx P S → Option Bytes)
    (unmarshal : Bytes → Option (Tx P S)) where
  -- the output of a command is a buffer
  abbrev pub tools : Tools P S Bytes
  tools = record { extract = X; marshal = marshal; unmarshal = unmarshal; write = append_to }

  -- what a command writes into the pipe
  abbrev pub written : Tx P S → Bytes
  written tx = (put_tx tools tx []).1

  -- The transaction survives its encoding, and is below 4 GB.
  pub record Carries (tx : Tx P S) : Type 0 where
    pub bytes : Bytes
    pub marshalled : marshal tx ≡ some bytes
    pub unmarshalled : unmarshal bytes ≡ some tx
    pub small : length bytes + 4 < 2 ^ 32

  -- What one command has written the next one reads.
  pub get_tx-written :
      (tx : Tx P S)
      → Carries tx
      → (n : ℕ) × ((get_tx tools none (written tx ∷ [])).0 ≡ some (tx, n))
  unfolding get_tx put_tx read_all
  get_tx-written tx c =
      let first = (write_tx append_to marshal tx []).1 in
      let frame = write_tx-frame marshal unmarshal tx c.marshalled in
      let long : length first ≡ length (put_uint32 (length c.bytes % 2 ^ 32) ++ c.bytes) =
        ap (λ (r : (ℕ × Bool) × Bytes). length r.1) frame in
      let header : 4 ≤ length first = omega (
        arith,
        long,
        length-append (put_uint32 (length c.bytes % 2 ^ 32)) c.bytes,
        length-put_uint32 (length c.bytes % 2 ^ 32),
      ) in
      let (out, _) =
        read_tx-write_tx marshal unmarshal tx first [] [] none (λ e. cc) c.marshalled c.unmarshalled
          c.small header refl in
      (_, out)

  -- A list in a transaction, to which the arguments A append elements B.
  module _ {A B : Type 0} (element : A → B) (tx : List B → Tx P S) where
    -- The transactions in the pipe survive their encoding.
    abbrev pub AllCarried : List B → List A → Type 0
    AllCarried bs [] = Unit
    AllCarried bs (a ∷ args) = Carries (tx bs) × AllCarried (bs ++ (element a ∷ [])) args

    pub pipe-written :
        (command : Command A)
        → ((a : A) (bs : List B)
            → Carries (tx bs)
            → (command a none (written (tx bs) ∷ []) []).1 ≡ written (tx (bs ++ (element a ∷ []))))
        → (args : List A) (bs : List B) → AllCarried bs args
        → pipe command args (written (tx bs)) ≡ written (tx (bs ++ map element args))
    pipe-written command once [] bs all = ap (λ (l : List B). written (tx l)) (sym (append-nil bs))
    pipe-written command once (a ∷ args) bs (carried, all) =
        ap (λ (buffer : Bytes). pipe command args buffer) (once a bs carried)
        ∙ pipe-written command once args (bs ++ (element a ∷ [])) all
        ∙ ap (λ (l : List B). written (tx l)) (append_assoc bs (element a ∷ []) (map element args))
