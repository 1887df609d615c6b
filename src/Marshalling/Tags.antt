-- ===== src/Marshalling/Tags.antt =====
-- The tags of the messages and the separator of their fields (marshalling.h).
use snuffin.Common.{ℕ}

abbrev pub player_tag : ℕ
player_tag = b'2'

abbrev pub string_tag : ℕ
string_tag = b'3'

abbrev pub point_tag : ℕ
point_tag = b'1'

abbrev pub board_tag : ℕ
board_tag = b'5'

abbrev pub perdio_tag : ℕ
perdio_tag = b'6'

abbrev pub termino_tag : ℕ
termino_tag = b'7'

abbrev pub server_id_tag : ℕ
server_id_tag = b'8'

abbrev pub boolean_tag : ℕ
boolean_tag = b'4'

abbrev pub sep : ℕ
sep = b'#'
