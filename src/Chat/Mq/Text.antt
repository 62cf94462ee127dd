-- ===== src/Chat/Mq/Text.antt =====
-- The text of a message in cw06/zad2/shared.h: `create_message` and `parse_message`.
use operating_systems_course.Common.{
  ℕ, ◌<◌, append_assoc, true, ◌≡◌, ◌≢◌, refl, Bool, false, ◌&&◌, [], ◌∷◌, ◌++◌, Option, none, some,
  arith, if◌then◌else◌,
}
use operating_systems_course.Common.Int.{ℤ, pos, minus_one, eq_ℤ, int_of, int_of_small}
use operating_systems_course.Common.Bytes.{Bytes}
use operating_systems_course.Common.Decimal.{
  show, atoi, atoi-show, show-ne-nil, NoDigit, atoi-append,
}
use operating_systems_course.Common.Strtok.{
  strtok, strcpy_down, Avoids, strtok-append, strtok-NoDigit, show-Avoids,
}

-- `msg_buffer`
pub record Buffer : Type 0 where
  pub m_type : ℤ
  pub m_text : Bytes
  pub sender_id : ℤ
  pub receiver_id : ℤ
  pub send_time : ℤ

-- A field and the mark behind it.
abbrev pub field : Bytes → Bytes → Bytes
field text rest = text ++ b'-' ∷ rest

-- With an empty text `sprintf` gets a null pointer for `%s`.
unfoldable pub create_message : Buffer → Option Bytes
create_message m = elim m.m_text [
  | [] ↦ none
  | _ ∷ _ ↦ some (
      field (show m.m_type)
        (field m.m_text (field (show m.sender_id) (field (show m.receiver_id) (show m.send_time)))))
]

-- A part of the parsing gives a value, goes to the error branch, or does what C leaves undefined.
pub data Parsed {ℓ} (A : Type ℓ) : Type ℓ where
  ok : A → Parsed A
  failed undefined : Parsed A

-- The number, -1 for a failure, and the text left in `message`; `none` is a copy that C leaves
-- undefined. `errno` tells whether some earlier call has left its mark: it is not reset.
unfoldable pub parse_long : Bool → Bool → Bytes → Option (ℤ × Bytes)
unfolding strcpy_down
parse_long forward errno message = elim (strtok b'-' message) [
  | none ↦ some (minus_one, message)
  | some (number_str, buffer) ↦
      let number = atoi number_str in
      elim (strcpy_down forward message buffer) [
        | none ↦ none
        | some rest ↦ some ((if eq_ℤ number (pos 0) && errno then minus_one else number), rest)
      ]
]

-- The next number with its cast, where -1 goes to the error branch.
unfoldable pub long_field : (ℤ → ℤ) → Bool → Bool → Bytes → Parsed (ℤ × Bytes)
unfolding parse_long
long_field cast forward errno message = elim (parse_long forward errno message) [
  | none ↦ undefined
  | some (number, buffer) ↦
      if eq_ℤ (cast number) minus_one then failed else ok (cast number, buffer)
]

infixl 10 ◌>>=◌
abbrev ◌>>=◌ {ℓ κ} : {A : Type ℓ} {B : Type κ} → Parsed A → (A → Parsed B) → Parsed B
failed >>= f = failed
undefined >>= f = undefined
ok a >>= f = f a

unfoldable pub parse_text : Bool → Bytes → Parsed (Bytes × Bytes)
unfolding strcpy_down
parse_text forward message = elim (strtok b'-' message) [
  | none ↦ failed
  | some (text, buffer) ↦ elim (strcpy_down forward message buffer) [
    | none ↦ undefined
    | some rest ↦ ok (text, rest)
  ]
]

abbrev no_cast : ℤ → ℤ
no_cast number = number

-- `parse_message`; `failed` is the null pointer.
unfoldable pub parse_message : Bool → Bool → Bytes → Parsed Buffer
unfolding long_field parse_text
parse_message forward errno message = do
  (m_type, after_type) ← long_field int_of forward errno message
  (m_text, after_text) ← parse_text forward after_type
  (sender_id, after_sender) ← long_field int_of forward errno after_text
  (receiver_id, after_receiver) ← long_field int_of forward errno after_sender
  (send_time, after_time) ← long_field no_cast forward errno after_receiver
  ok (record {
    m_type = m_type;
    m_text = m_text;
    sender_id = sender_id;
    receiver_id = receiver_id;
    send_time = send_time;
  })

long_field-token :
    (cast : ℤ → ℤ) (token message rest : Bytes) (n : ℕ)
    → strtok b'-' message ≡ some (token, rest)
    → atoi token ≡ pos n
    → cast (pos n) ≡ pos n
    → long_field cast true false message ≡ ok (pos n, rest)
unfolding long_field parse_long
long_field-token cast token message rest n e a c = ground (arith, e, a, c)

int_field-field :
    (n : ℕ) (rest : Bytes)
    → n < 2147483648
    → long_field int_of true false (field (show (pos n)) rest) ≡ ok (pos n, rest)
int_field-field n rest small =
    long_field-token int_of (show (pos n)) _ rest n
      (strtok-append b'-' (show (pos n)) rest (show-ne-nil (pos n)) (show-Avoids b'-' n refl))
      (atoi-show (pos n)) (int_of_small n small)

-- The last number, with what the buffer holds behind the message.
long_field_last :
    (n : ℕ) (leftover : Bytes)
    → NoDigit leftover
    → (rest : Bytes) × (long_field no_cast true false (show (pos n) ++ leftover) ≡ ok (pos n, rest))
long_field_last n leftover h =
    let (more, rest, split, none_more) =
      strtok-NoDigit b'-' (show (pos n)) leftover (show-ne-nil (pos n)) (show-Avoids b'-' n refl)
        h in
    (
      rest,
      long_field-token no_cast (show (pos n) ++ more) _ rest n split (atoi-append n more none_more)
          refl,
    )

parse_text-field :
    (text rest : Bytes)
    → text ≢ []
    → Avoids b'-' text
    → parse_text true (field text rest) ≡ ok (text, rest)
unfolding parse_text strcpy_down
parse_text-field text rest ne h = ground (arith, strtok-append b'-' text rest ne h)

-- While errno is 0, and if strcpy happens to copy areas that overlap from the front, parse_message
-- reads back what create_message printed, if the numbers fit an int and are not negative and the
-- text is not empty and has no dash. What the buffer holds behind the message, which comes without
-- its final zero, does not begin with a digit.
pub parse_message-create_message :
    (m_type sender_id receiver_id send_time : ℕ) (text leftover : Bytes)
    → text ≢ []
    → Avoids b'-' text
    → m_type < 2147483648
    → sender_id < 2147483648
    → receiver_id < 2147483648
    → NoDigit leftover
    → let m : Buffer = record {
      m_type = pos m_type;
      m_text = text;
      sender_id = pos sender_id;
      receiver_id = pos receiver_id;
      send_time = pos send_time;
    } in
      (message : Bytes) × (create_message m ≡ some message)
      × (parse_message true false (message ++ leftover) ≡ ok m)
unfolding create_message parse_message
parse_message-create_message t s r w [] leftover ne h ht hs hr hl = absurd (ne refl)
parse_message-create_message t s r w (c ∷ text) leftover ne h ht hs hr hl =
    let last = show (pos w) ++ leftover in
    let from_receiver = field (show (pos r)) last in
    let from_sender = field (show (pos s)) from_receiver in
    (
      field (show (pos t))
          (field (c ∷ text) (field (show (pos s)) (field (show (pos r)) (show (pos w))))),
      refl,
      rw
          (
            behind t
                (field (c ∷ text) (field (show (pos s)) (field (show (pos r)) (show (pos w))))),
            behind_text (c ∷ text) (field (show (pos s)) (field (show (pos r)) (show (pos w)))),
            behind s (field (show (pos r)) (show (pos w))),
            behind r (show (pos w)),
            int_field-field t (field (c ∷ text) from_sender) ht,
            parse_text-field (c ∷ text) from_sender ne h,
            int_field-field s from_receiver hs,
            int_field-field r last hr,
            (long_field_last w leftover hl).1,
          )
          refl,
    )
  where
    behind_text : (u rest : Bytes) → field u rest ++ leftover ≡ field u (rest ++ leftover)
    behind_text u rest = append_assoc u (b'-' ∷ rest) leftover

    behind :
        (n : ℕ) (rest : Bytes)
        → field (show (pos n)) rest ++ leftover ≡ field (show (pos n)) (rest ++ leftover)
    behind n rest = behind_text (show (pos n)) rest
