-- ===== src/Tests/Parsing.antt =====
-- Examples of discover/parser-conf.c.
use petitboot.CString.{codes}
use petitboot.Base.{◌≡◌, refl, none, some, [], ◌∷◌, ◌++◌, All}
use petitboot.ParserConf.{strip_back, conf_strip_str, conf_parse_buf}
use petitboot.ParserConf.Pairs.{
  Line, IsLine, IsEntry, file_text, conf_strip_str-IsBlank, conf_parse_buf-file_text,
}

abbrev default_line : Line
default_line = record {
  front = codes "  ";
  name = codes "default";
  after_name = codes " ";
  before_value = codes " '";
  value = codes "linux";
  back = codes "' ";
}

abbrev timeout_line : Line
timeout_line = record default_line { name = codes "timeout"; value = codes "5 0" }

two-IsEntry : All (IsEntry 61) (default_line ∷ timeout_line ∷ [])
unfolding strip_back
two-IsEntry = ((one, refl, refl), ((other, refl, refl), tt))
  where
    one : IsLine 61 10 default_line
    one = record {
      front = search;
      name = (refl, refl);
      after_name = search;
      before_value = search;
      value = (refl, refl);
      back = search;
      delimiter = search;
      terminator = search;
      tabs = search;
    }

    other : IsLine 61 10 timeout_line
    other = record {
      front = search;
      name = (refl, refl);
      after_name = search;
      before_value = search;
      value = (refl, refl);
      back = search;
      delimiter = search;
      terminator = search;
      tabs = search;
    }

two_parsed :
    conf_parse_buf 61 (codes "  default = 'linux' " ++ 10 ∷ codes "  timeout = '5 0' " ++ 10 ∷ [])
    ≡ some ((some (codes "default"), codes "linux") ∷ (some (codes "timeout"), codes "5 0") ∷ [])
unfolding file_text
two_parsed = conf_parse_buf-file_text 61 (default_line ∷ timeout_line ∷ []) two-IsEntry

blank_overrun : conf_strip_str [] (some (codes "   ")) ≡ none
blank_overrun = conf_strip_str-IsBlank [] (codes "  ") 32 tt (refl, (refl, (refl, tt)))
