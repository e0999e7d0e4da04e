-- ===== src/Snapshot/Frame/RoundTrip.antt =====
-- A frame is encoded, and the client that applies its packets has the players of the frame.
use shroomio.Base.{
  ℕ, ◌+◌, ◌*◌, ◌≤◌, ◌≡◌, ◌≢◌, refl, sym, ◌∙◌, Option, none, some, List, length, arith, All,
}
use shroomio.Snapshot.{Player, max_players}
use shroomio.Snapshot.Record.Codec.{IsValid}
use shroomio.Snapshot.Frame.{find_player}
use shroomio.Snapshot.Frame.Encode.{
  Encoded, Parameters, empty_encoded, then_despawns, encode_players,
}
use shroomio.Snapshot.Frame.Lookup.{Distinct, length-le-of-ids}
use shroomio.Snapshot.Frame.Applied.{Applied, Applied-empty}
use shroomio.Snapshot.Frame.Same.{SamePlayer}
use shroomio.Snapshot.Frame.Loops.{new_count, Sent, encode_players-sends}
use shroomio.Snapshot.Frame.Despawns.{Ended, encode_despawns-sends}

-- What a client has of an id stands for what the server has.
abbrev pub Received : Option Player → Option Player → Type 0
Received none received = received ≡ none
Received (some p) received = (q : Player) × (received ≡ some q) × SamePlayer p q

Sent-known : (p before after : Option Player) → Sent p before after → before ≢ none → after ≢ none
Sent-known none before after s h e = h (sym s ∙ e)
Sent-known (some p) before after (q, at, same) h e = cc

-- Both loops together.
Received-of_loops :
    (p b now next : Option Player) → Sent p b now → Ended b p now next → Received p next
Received-of_loops none none now next s e = e ∙ s
Received-of_loops none (some b) now next s e = e
Received-of_loops (some p) none now next (q, at, same) e = (q, e ∙ at, same)
Received-of_loops (some p) (some b) now next (q, at, same) e = (q, e ∙ at, same)

Received→ids :
    (p o : Option Player) → Received p o → ((o ≡ none) → (p ≡ none)) × ((p ≡ none) → (o ≡ none))
Received→ids none o r = ((λ e. refl), (λ e. r))
Received→ids (some p) o (q, at, same) = ((λ e. cc), (λ e. cc))

-- Players that are received are as many as those that were sent.
pub length-Received :
    (players received : List Player)
    → Distinct players
    → Distinct received
    → ((i : ℕ) → Received (find_player players i) (find_player received i))
    → length received ≡ length players
length-Received players received dp dr h = omega (
  arith,
  length-le-of-ids players received dp (λ i. (Received→ids _ _ (h i)).0),
  length-le-of-ids received players dr (λ i. (Received→ids _ _ (h i)).1),
)

-- The packets of a frame, and what a client makes of them.
pub record Transfer (c : Parameters) (base players : List Player) (o : Option Encoded)
    : Type 0 where
  pub encoded : Encoded
  pub runs : o ≡ some encoded
  pub received : List Player
  pub bytes : ℕ
  pub bytes_le : bytes ≤ 82 * max_players
  pub applied : Applied c encoded base received bytes
  pub outcome : (i : ℕ) → Received (find_player players i) (find_player received i)
  pub distinct : Distinct received

pub loops-Transfer :
    (c : Parameters) (base players : List Player)
    → All IsValid players
    → All IsValid base
    → Distinct players
    → Distinct base
    → length players ≤ max_players
    → length base + new_count base players ≤ max_players
    → Transfer c base players
        (then_despawns c players base (encode_players c base players empty_encoded))
loops-Transfer c base players vp vb dp db small room =
    let first =
      encode_players-sends c base base players base empty_encoded 0 dp vp db (omega arith)
        (λ i e. refl) room (Applied-empty c base) in
    let step = first.sent in
    let second =
      encode_despawns-sends c base players base first.next step.encoded step.bytes db vb
        first.distinct (omega (arith, step.bytes_le))
        (λ i.
          Sent-known (find_player players i) (find_player base i) (find_player first.next i)
            (first.outcome i))
        step.applied in
    record {
      encoded = second.sent.encoded;
      runs = rw (step.runs) second.sent.runs;
      received = second.next;
      bytes = second.sent.bytes;
      bytes_le = omega (arith, second.sent.bytes_le, step.bytes_le);
      applied = second.sent.applied;
      outcome = λ i.
          Received-of_loops (find_player players i) (find_player base i) _ _ (first.outcome i)
            (second.outcome i);
      distinct = second.distinct;
    }
