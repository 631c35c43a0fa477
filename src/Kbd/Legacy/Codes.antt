-- ===== src/Kbd/Legacy/Codes.antt =====
-- The scan code table of picocalc_kbd/picocalc_kbd_code.h.
use meta_picocalc.Prelude.{ℕ, List, [], ◌∷◌, replicate}
use meta_picocalc.Kbd.Codes.{
  Row, row, fill, key_0, key_1, key_2, key_3, key_4, key_5, key_6, key_7, key_8, key_9, key_a,
  key_apostrophe, key_b, key_backslash, key_backspace, key_c, key_capslock, key_comma, key_d,
  key_delete, key_dot, key_down, key_e, key_end, key_enter, key_equal, key_esc, key_f, key_f1,
  key_f10, key_f2, key_f3, key_f4, key_f5, key_f6, key_f7, key_f8, key_f9, key_g, key_grave, key_h,
  key_home, key_i, key_j, key_k, key_l, key_left, key_leftalt, key_leftbrace, key_leftctrl,
  key_leftshift, key_m, key_minus, key_n, key_o, key_p, key_pagedown, key_pageup, key_pause, key_q,
  key_r, key_right, key_rightbrace, key_rightshift, key_s, key_semicolon, key_slash, key_space,
  key_t, key_tab, key_u, key_up, key_v, key_w, key_x, key_y, key_z,
}

-- `keycodes`, as the source lists it; a scan code that it does not name is KEY_RESERVED.
abbrev rows : List Row
rows =
    row 0xA1 key_leftalt
    ∷ row 0xA2 key_leftshift
    ∷ row 0xA3 key_rightshift
    ∷ row 0xA5 key_leftctrl
    ∷ row b'a' key_a
    ∷ row b'b' key_b
    ∷ row b'c' key_c
    ∷ row b'd' key_d
    ∷ row b'e' key_e
    ∷ row b'f' key_f
    ∷ row b'g' key_g
    ∷ row b'h' key_h
    ∷ row b'i' key_i
    ∷ row b'j' key_j
    ∷ row b'k' key_k
    ∷ row b'l' key_l
    ∷ row b'm' key_m
    ∷ row b'n' key_n
    ∷ row b'o' key_o
    ∷ row b'p' key_p
    ∷ row b'q' key_q
    ∷ row b'r' key_r
    ∷ row b's' key_s
    ∷ row b't' key_t
    ∷ row b'u' key_u
    ∷ row b'v' key_v
    ∷ row b'w' key_w
    ∷ row b'x' key_x
    ∷ row b'y' key_y
    ∷ row b'z' key_z
    ∷ row b'A' key_a
    ∷ row b'B' key_b
    ∷ row b'C' key_c
    ∷ row b'D' key_d
    ∷ row b'E' key_e
    ∷ row b'F' key_f
    ∷ row b'G' key_g
    ∷ row b'H' key_h
    ∷ row b'I' key_i
    ∷ row b'J' key_j
    ∷ row b'K' key_k
    ∷ row b'L' key_l
    ∷ row b'M' key_m
    ∷ row b'N' key_n
    ∷ row b'O' key_o
    ∷ row b'P' key_p
    ∷ row b'Q' key_q
    ∷ row b'R' key_r
    ∷ row b'S' key_s
    ∷ row b'T' key_t
    ∷ row b'U' key_u
    ∷ row b'V' key_v
    ∷ row b'W' key_w
    ∷ row b'X' key_x
    ∷ row b'Y' key_y
    ∷ row b'Z' key_z
    ∷ row b' ' key_space
    ∷ row 0x08 key_backspace
    ∷ row 0x0A key_enter
    ∷ row b'0' key_0
    ∷ row b'1' key_1
    ∷ row b'2' key_2
    ∷ row b'3' key_3
    ∷ row b'4' key_4
    ∷ row b'5' key_5
    ∷ row b'6' key_6
    ∷ row b'7' key_7
    ∷ row b'8' key_8
    ∷ row b'9' key_9
    ∷ row b')' key_0
    ∷ row b'(' key_9
    ∷ row b'*' key_8
    ∷ row b'&' key_7
    ∷ row b'^' key_6
    ∷ row b'%' key_5
    ∷ row b'$' key_4
    ∷ row b'#' key_3
    ∷ row b'@' key_2
    ∷ row b'!' key_1
    ∷ row 0x81 key_f1
    ∷ row 0x82 key_f2
    ∷ row 0x83 key_f3
    ∷ row 0x84 key_f4
    ∷ row 0x85 key_f5
    ∷ row 0x86 key_f6
    ∷ row 0x87 key_f7
    ∷ row 0x88 key_f8
    ∷ row 0x89 key_f9
    ∷ row 0x90 key_f10
    ∷ row 0x08 key_backspace
    ∷ row 0xD4 key_delete
    ∷ row 0xD5 key_end
    ∷ row 0xC1 key_capslock
    ∷ row 0x09 key_tab
    ∷ row 0xD2 key_home
    ∷ row 0xB1 key_esc
    ∷ row 0xD0 key_pause
    ∷ row b'=' key_equal
    ∷ row b'+' key_equal
    ∷ row b'-' key_minus
    ∷ row b'_' key_minus
    ∷ row 0x5C key_backslash
    ∷ row b'|' key_backslash
    ∷ row 0xD1 key_enter
    ∷ row b'.' key_dot
    ∷ row b'>' key_dot
    ∷ row b';' key_semicolon
    ∷ row b':' key_semicolon
    ∷ row b',' key_comma
    ∷ row b'<' key_comma
    ∷ row b'`' key_grave
    ∷ row b'~' key_grave
    ∷ row b'"' key_apostrophe
    ∷ row 0x27 key_apostrophe
    ∷ row b'?' key_slash
    ∷ row b'/' key_slash
    ∷ row b']' key_rightbrace
    ∷ row b'}' key_rightbrace
    ∷ row b'[' key_leftbrace
    ∷ row b'{' key_leftbrace
    ∷ row 0xB7 key_right
    ∷ row 0xB5 key_up
    ∷ row 0xB6 key_down
    ∷ row 0xB4 key_left
    ∷ row 0xD6 key_pageup
    ∷ row 0xD7 key_pagedown
    ∷ []

unfoldable pub keycodes : List ℕ
keycodes = fill rows (replicate 256 0)
