-- ===== src/ChatHistory/Load.antt =====
-- Reading the history from the database. The rows that the query gives, in order, and whether it
-- ended well, are an argument: `none` is a query that could not be prepared.
use shroomio.Base.{
  ℕ, ◌%◌, ◌≡◌, refl, ap, Bool, false, ◌&&◌, not, Option, none, some, List, [], ◌∷◌, Bool-cases, inl,
  inr, arith, length-take-le, take, ◌==◌, if◌then◌else◌, u32_mod,
}
use shroomio.ChatHistory.{Message, History, retained, is_empty, append}
use shroomio.ChatHistory.Bounds.{append_keeps}
use shroomio.ChatHistory.Retention.{IsValid, IsText}

pub record Row : Type 0 where
  pub sender_id : ℕ
  pub message_id : ℕ
  pub timestamp_sec : ℕ
  pub sender_name : Option (List ℕ)
  pub message : Option (List ℕ)

abbrev pub text_or_empty : Option (List ℕ) → List ℕ
text_or_empty none = []
text_or_empty (some text) = text

-- The texts are cut to the arrays that hold them.
abbrev pub row_message : Row → Message
row_message r = record {
  sender_id = r.sender_id % u32_mod;
  message_id = r.message_id;
  timestamp_sec = r.timestamp_sec % u32_mod;
  sender_name = take 31 (text_or_empty r.sender_name);
  message = take 200 (text_or_empty r.message);
}

abbrev pub is_kept : Message → ℕ → Bool
is_kept m now_sec =
    retained m.timestamp_sec now_sec
    && not (m.message_id == 0)
    && not (is_empty m.sender_name)
    && not (is_empty m.message)

abbrev pub history_of : Option (History × Bool) → Option History
history_of none = none
history_of (some (h, appended)) = some h

unfoldable pub load_row : History → Row → ℕ → Option History
load_row h r now_sec =
    if is_kept (row_message r) now_sec
    then history_of (append h (some (row_message r)) now_sec)
    else some h

unfoldable pub load_rows : History → List Row → ℕ → Option History
load_rows h [] now_sec = some h
load_rows h (r ∷ rs) now_sec = elim (load_row h r now_sec) [
  | none ↦ none
  | some k ↦ load_rows k rs now_sec
]

abbrev pub finish_load : Bool → Option History → Option (History × Bool)
finish_load done none = none
finish_load done (some h) = some (record h { dirty = false }, done)

abbrev pub load_from : History → ℕ → Option (List Row × Bool) → Option (History × Bool)
load_from h now_sec none = some (h, false)
load_from h now_sec (some (rows, done)) = finish_load done (load_rows h rows now_sec)

module _ {D : Type 0} (select : D → ℕ → Option (List Row × Bool)) where
  -- `none` is a loop of `Append` that has not ended.
  unfoldable pub load : Option D → History → ℕ → Option (History × Bool)
  load none h now_sec = some (h, false)
  load (some d) h now_sec =
      if h.identity == 0 then some (h, false) else load_from h now_sec (select d h.identity)

load_row-IsValid :
    (h : History) (r : Row) (now : ℕ)
    → IsValid h
    → (k : History) × (load_row h r now ≡ some k) × IsValid k
unfolding load_row
load_row-IsValid h r now v = elim (Bool-cases (is_kept (row_message r) now)) [
  | inr skip ↦ rw skip (h, refl, v)
  | inl take_ ↦
      let m = row_message r in
      let short : IsText m = (
        omega (arith, length-take-le 31 (text_or_empty r.sender_name)),
        length-take-le 200 (text_or_empty r.message),
      ) in
      let (k, b, e, w) = append_keeps h m now v short in rw take_ (rw e (k, refl, w))
]

load_rows-IsValid :
    (h : History) (rs : List Row) (now : ℕ)
    → IsValid h
    → (k : History) × (load_rows h rs now ≡ some k) × IsValid k
unfolding load_rows
load_rows-IsValid h [] now v = (h, refl, v)
load_rows-IsValid h (r ∷ rs) now v =
    let (k, e, w) = load_row-IsValid h r now v in rw (e, load_rows) (load_rows-IsValid k rs now w)

load_from-IsValid :
    (h : History) (now : ℕ) (o : Option (List Row × Bool))
    → IsValid h
    → (k : History) × (ok : Bool) × (load_from h now o ≡ some (k, ok)) × IsValid k
load_from-IsValid h now none v = (h, false, refl, v)
load_from-IsValid h now (some (rows, done)) v =
    let (k, e, w) = load_rows-IsValid h rows now v in
    (record k { dirty = false }, done, ap (finish_load done) e, w)

-- Whatever rows the database gives, a load ends, and leaves the history with its bytes counted
-- right, within its bounds, and with no id twice.
pub load-IsValid :
    {D : Type 0} (select : D → ℕ → Option (List Row × Bool)) (d : D) (h : History) (now_sec : ℕ)
    → IsValid h
    → (k : History) × (ok : Bool) × (load select (some d) h now_sec ≡ some (k, ok)) × IsValid k
unfolding load
load-IsValid select d h now v = elim (Bool-cases (h.identity == 0)) [
  | inl none_ ↦ rw none_ (h, false, refl, v)
  | inr some_ ↦ rw some_ (load_from-IsValid h now (select d h.identity) v)
]
