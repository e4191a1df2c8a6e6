-- ===== src/Compose/Ports.antt =====
-- `_parse_ports` of compose/_parse.py. The pattern of a range of ports,
-- `^(?:(\S+):)?(\d+)-(\d+):(\d+)-(\d+)$`, is read from the right: neither a number nor a dash has a
-- colon. What `\d` matches and `int` reads, and what `\s` matches, are parameters, and so is `str`.
pub mod Ranges
mod Tests
use agentdocker_lite.Base.{
  ℕ, zero, suc, ◌+◌, ◌-◌, ◌*◌, pos, Bool, true, false, not, ◌||◌, Option, none, some, List, [], ◌∷◌,
  ◌++◌, ◌==◌, if◌then◌else◌, any, Result, ok, err, ◌>>=◌,
}
use agentdocker_lite.Text.{Text, codes, text_eq, split_once, rsplit_once}
use agentdocker_lite.Compose.Yaml.{
  Value, null, bool, int, float, str, list, dict, Items, nil, cons, Fields, end, field, get_field,
  truthy, items, text_of,
}

-- re.sub(r"/(tcp|udp)$", "", p); the end is also in front of a last newline.
unfoldable pub strip_protocol : Text → Text
unfolding text_eq
strip_protocol [] = []
strip_protocol (c ∷ s) =
    let rest = strip_protocol s in
    if text_eq (c ∷ s) (codes "/tcp") || text_eq (c ∷ s) (codes "/udp")
    then []
    else if text_eq (c ∷ s) (codes "/tcp\n") || text_eq (c ∷ s) (codes "/udp\n")
    then codes "\n"
    else c ∷ rest

-- The text without a last newline, in front of which `$` matches too.
unfoldable pub chomp : Text → Text
chomp [] = []
chomp (c ∷ []) = if c == b'\n' then [] else c ∷ []
chomp (c ∷ (d ∷ s)) = c ∷ chomp (d ∷ s)

pub record PortRange : Type 0 where
  pub bind_addr : Option Text
  pub host_start : ℕ
  pub host_end : ℕ
  pub cont_start : ℕ
  pub cont_end : ℕ

module _ (digit : ℕ → Option ℕ) (is_space : ℕ → Bool) (show : Value → Text) where
  -- int(s), for a match of \d+
  unfoldable pub digits : ℕ → Text → Option ℕ
  digits n [] = some n
  digits n (c ∷ s) = elim (digit c) [ none ↦ none | some d ↦ digits (n * 10 + d) s ]

  unfoldable pub number : Text → Option ℕ
  unfolding digits
  number [] = none
  number (c ∷ s) = digits 0 (c ∷ s)

  -- (\d+)-(\d+)
  unfoldable pub span_of : Text → Option (ℕ × ℕ)
  unfolding split_once number
  span_of s = elim (split_once (codes "-") s) [
    | none ↦ none
    | some (a, b) ↦ elim (number a) [
      | none ↦ none
      | some first ↦ elim (number b) [ none ↦ none | some last ↦ some (first, last) ]
    ]
  ]

  -- (\S+)
  unfoldable pub is_address : Text → Bool
  is_address [] = false
  is_address (c ∷ s) = not (any is_space (c ∷ s))

  -- The part in front of the last colon.
  unfoldable pub host_part : Text → Option (Option Text × (ℕ × ℕ))
  unfolding rsplit_once span_of is_address
  host_part s = elim (rsplit_once b':' s) [
    | none ↦ elim (span_of s) [ none ↦ none | some hosts ↦ some (none, hosts) ]
    | some (address, rest) ↦ elim (span_of rest) [
      | none ↦ none
      | some hosts ↦ if is_address address then some (some address, hosts) else none
    ]
  ]

  unfoldable pub match_range : Text → Option PortRange
  unfolding rsplit_once host_part span_of chomp
  match_range p = elim (rsplit_once b':' (chomp p)) [
    | none ↦ none
    | some (left, right) ↦ elim (host_part left) [
      | none ↦ none
      | some (address, (host_first, host_last)) ↦ elim (span_of right) [
        | none ↦ none
        | some (cont_first, cont_last) ↦ some (record {
          bind_addr = address;
          host_start = host_first;
          host_end = host_last;
          cont_start = cont_first;
          cont_end = cont_last;
        })
      ]
    ]
  ]

  abbrev pub show_port : ℕ → Text
  show_port n = show (int (pos n))

  unfoldable pub mapping : Option Text → ℕ → ℕ → Text
  mapping none host cont = show_port host ++ codes ":" ++ show_port cont
  mapping (some address) host cont =
      address ++ codes ":" ++ show_port host ++ codes ":" ++ show_port cont

  -- for offset in range(count), from an offset on
  unfoldable pub mappings : PortRange → ℕ → ℕ → List Text
  unfolding mapping
  mappings r zero offset = []
  mappings r (suc count) offset =
      mapping r.bind_addr (r.host_start + offset) (r.cont_start + offset)
      ∷ mappings r count (offset + 1)

  -- What an entry in the short form adds. Two ranges of different widths are kept as one entry.
  unfoldable pub short_form : Text → List Text
  unfolding match_range mappings
  short_form p = elim (match_range p) [
    | none ↦ p ∷ []
    | some r ↦
        if r.host_end + r.cont_start == r.cont_end + r.host_start
        then mappings r (r.host_end + 1 - r.host_start) 0
        else p ∷ []
  ]

  -- p.get(k, default)
  abbrev pub get_or : Option Value → Value → Value
  get_or none default = default
  get_or (some v) default = v

  unfoldable pub long_form : Fields → Text
  unfolding get_field
  long_form p =
      let target = get_or (get_field (codes "target") p) (str []) in
      let published = get_or (get_field (codes "published") p) target in
      text_of show published ++ codes ":" ++ text_of show target

  unfoldable pub parse_port : Value → List Text
  unfolding long_form short_form strip_protocol
  parse_port (dict p) = long_form p ∷ []
  parse_port v = short_form (strip_protocol (text_of show v))

  unfoldable pub parse_entries : List Value → List Text
  unfolding parse_port
  parse_entries [] = []
  parse_entries (v ∷ vs) = parse_port v ++ parse_entries vs

  abbrev pub keys_of : Fields → List Value
  keys_of end = []
  keys_of (field k v fs) = str k ∷ keys_of fs

  abbrev pub characters : Text → List Value
  characters [] = []
  characters (c ∷ s) = str (c ∷ []) ∷ characters s

  -- A mapping is gone through by its keys, a string by its characters.
  unfoldable pub parse_ports : Value → Result Text (List Text)
  unfolding parse_entries truthy
  parse_ports (list vs) = ok (parse_entries (items vs))
  parse_ports (dict fs) = ok (parse_entries (keys_of fs))
  parse_ports (str s) = ok (parse_entries (characters s))
  parse_ports v = if truthy v then err (codes "TypeError") else ok []
