-- ===== src/Dev/Keyboard.antt =====
-- kernel/dev/kb.c: the keyboard handler, which turns key events into bytes for the terminal of the
-- process that has the focus.
--
-- What a table says of a key is the entry that its initializer names; the other entries up to key 106
-- are 0, and behind them the table ends.
pub mod Tables
pub mod Typing
mod Tests
use dogg_os.Base.{
  ℕ, Bool, true, false, ◌||◌, not, List, [], ◌∷◌, ◌++◌, Option, none, some, ◌==◌, ltb,
  if◌then◌else◌,
}

-- The fields of struct k_dev_keyboard_t that the handler uses.
pub record KeyboardState : Type 0 where
  pub left_shift : Bool
  pub right_shift : Bool
  pub caps_lock : Bool

-- enum K_DEV_KEYBOARD_EVENTS
pub data EventType : Type 0 where
  key_down key_up repeat : EventType

abbrev pub is_down : EventType → Bool
is_down key_down = true
is_down key_up = false
is_down repeat = false

-- K_DEV_KEYBOARD_CASPLOCK_KEY, K_DEV_KEYBOARD_LSHIFT_KEY and K_DEV_KEYBOARD_RSHIFT_KEY
abbrev pub caps_lock_key : ℕ
caps_lock_key = 30

abbrev pub left_shift_key : ℕ
left_shift_key = 44

abbrev pub right_shift_key : ℕ
right_shift_key = 57

-- k_kb_key_lut. The first entry is the low byte of a character that has two.
abbrev pub key_lut : List (ℕ × ℕ)
key_lut =
    (1, 180)
    ∷ (2, 49)
    ∷ (3, 50)
    ∷ (4, 51)
    ∷ (5, 52)
    ∷ (6, 53)
    ∷ (7, 54)
    ∷ (8, 55)
    ∷ (9, 56)
    ∷ (10, 57)
    ∷ (11, 48)
    ∷ (12, 45)
    ∷ (13, 61)
    ∷ (17, 113)
    ∷ (18, 119)
    ∷ (19, 101)
    ∷ (20, 114)
    ∷ (21, 116)
    ∷ (22, 121)
    ∷ (23, 117)
    ∷ (24, 105)
    ∷ (25, 111)
    ∷ (26, 112)
    ∷ (27, 91)
    ∷ (28, 93)
    ∷ (29, 92)
    ∷ (31, 97)
    ∷ (32, 115)
    ∷ (33, 100)
    ∷ (34, 102)
    ∷ (35, 103)
    ∷ (36, 104)
    ∷ (37, 106)
    ∷ (38, 107)
    ∷ (39, 108)
    ∷ (40, 59)
    ∷ (41, 39)
    ∷ (46, 122)
    ∷ (47, 120)
    ∷ (48, 99)
    ∷ (49, 118)
    ∷ (50, 98)
    ∷ (51, 110)
    ∷ (52, 109)
    ∷ (53, 44)
    ∷ (54, 46)
    ∷ (55, 47)
    ∷ (61, 32)
    ∷ (95, 47)
    ∷ (100, 42)
    ∷ (105, 45)
    ∷ (106, 43)
    ∷ (15, 16)
    ∷ (43, 10)
    ∷ []

-- k_kb_shift_key_lut
abbrev pub shift_key_lut : List (ℕ × ℕ)
shift_key_lut =
    (1, 126)
    ∷ (2, 33)
    ∷ (3, 64)
    ∷ (4, 35)
    ∷ (5, 36)
    ∷ (6, 37)
    ∷ (7, 94)
    ∷ (8, 38)
    ∷ (9, 42)
    ∷ (10, 40)
    ∷ (11, 41)
    ∷ (12, 95)
    ∷ (13, 43)
    ∷ (17, 81)
    ∷ (18, 87)
    ∷ (19, 69)
    ∷ (20, 82)
    ∷ (21, 84)
    ∷ (22, 89)
    ∷ (23, 85)
    ∷ (24, 73)
    ∷ (25, 79)
    ∷ (26, 80)
    ∷ (27, 123)
    ∷ (28, 125)
    ∷ (29, 124)
    ∷ (31, 65)
    ∷ (32, 83)
    ∷ (33, 68)
    ∷ (34, 70)
    ∷ (35, 71)
    ∷ (36, 72)
    ∷ (37, 74)
    ∷ (38, 75)
    ∷ (39, 76)
    ∷ (40, 58)
    ∷ (41, 34)
    ∷ (46, 90)
    ∷ (47, 88)
    ∷ (48, 67)
    ∷ (49, 86)
    ∷ (50, 66)
    ∷ (51, 78)
    ∷ (52, 77)
    ∷ (53, 60)
    ∷ (54, 62)
    ∷ (55, 63)
    ∷ (61, 32)
    ∷ (95, 47)
    ∷ (100, 42)
    ∷ (105, 45)
    ∷ (106, 43)
    ∷ (15, 16)
    ∷ (43, 10)
    ∷ []

abbrev pub entry_of : List (ℕ × ℕ) → ℕ → ℕ
entry_of [] key = 0
entry_of ((k, c) ∷ entries) key = let rest = entry_of entries key in if key == k then c else rest

-- `lut[key]`; none is a read behind the end.
unfoldable pub char_of : List (ℕ × ℕ) → ℕ → Option ℕ
char_of lut key = if ltb key 107 then some (entry_of lut key) else none

-- The bytes that the terminal of the focused process has received; none where there is no such
-- terminal.
abbrev pub Terminal : Type 0
Terminal = Option (List ℕ)

abbrev pub send : ℕ → Terminal → Terminal
send ch none = none
send ch (some bytes) = some (bytes ++ (ch ∷ []))

abbrev pub shifted : KeyboardState → Bool
shifted k = (k.left_shift || k.right_shift) || k.caps_lock

-- The byte that was looked up is sent.
abbrev pub typed : Option ℕ → KeyboardState → Terminal → Option (KeyboardState × Terminal)
typed none k t = none
typed (some ch) k t = some (k, send ch t)

-- The default case of the handler.
abbrev pub type_key : ℕ → KeyboardState → Terminal → Option (KeyboardState × Terminal)
type_key key k t = typed (char_of (if shifted k then shift_key_lut else key_lut) key) k t

-- k_dev_kb_KeyboardHandler
unfoldable pub keyboard_handler :
    EventType → ℕ → KeyboardState → Terminal → Option (KeyboardState × Terminal)
keyboard_handler type key k t =
    if key == left_shift_key
    then some (record k { left_shift = is_down type }, t)
    else if key == right_shift_key
    then some (record k { right_shift = is_down type }, t)
    else if key == caps_lock_key
    then some ((if is_down type then record k { caps_lock = not k.caps_lock } else k), t)
    else if is_down type
    then type_key key k t
    else some (k, t)

-- Events, one after the other.
unfoldable pub run :
    List (EventType × ℕ) → KeyboardState → Terminal → Option (KeyboardState × Terminal)
run [] k t = some (k, t)
run ((type, key) ∷ events) k t = elim (keyboard_handler type key k t) [
  | none ↦ none
  | some after ↦ run events after.0 after.1
]
