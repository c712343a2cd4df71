-- ===== src/Keyboard/Keycode.antt =====
-- The keys of kernel/include/kernel/keyboard.h, and the tables of kernel/src/core/keyboard.c from
-- scancodes of set 1 to keys.
use walu_os.Prelude.{ℕ, zero, suc, List, [], ◌∷◌}

-- `keycode_t`
pub data Key : Type 0 where
  key_none key_esc key_1 key_2 key_3 key_4 key_5 key_6 key_7 key_8 key_9 key_0 key_minus : Key
  key_equal key_backspace key_tab key_q key_w key_e key_r key_t key_y key_u key_i key_o : Key
  key_p key_leftbrace key_rightbrace key_enter key_leftctrl key_a key_s key_d key_f key_g : Key
  key_h key_j key_k key_l key_semicolon key_apostrophe key_grave key_leftshift : Key
  key_backslash key_z key_x key_c key_v key_b key_n key_m key_comma key_dot key_slash : Key
  key_rightshift key_kpasterisk key_leftalt key_space key_capslock key_f1 key_f2 key_f3 : Key
  key_f4 key_f5 key_f6 key_f7 key_f8 key_f9 key_f10 key_numlock key_scrolllock key_kp7 : Key
  key_kp8 key_kp9 key_kpminus key_kp4 key_kp5 key_kp6 key_kpplus key_kp1 key_kp2 key_kp3 : Key
  key_kp0 key_kpdot key_f11 key_f12 key_rightctrl key_rightalt key_home key_up key_pageup : Key
  key_left key_right key_end key_down key_pagedown key_insert key_delete key_leftmeta : Key
  key_rightmeta key_kpenter key_kpslash : Key

-- The value of the enumeration, by which `kbd_key_down` is indexed.
abbrev pub number : Key → ℕ
number key_none = 0
number key_esc = 1
number key_1 = 2
number key_2 = 3
number key_3 = 4
number key_4 = 5
number key_5 = 6
number key_6 = 7
number key_7 = 8
number key_8 = 9
number key_9 = 10
number key_0 = 11
number key_minus = 12
number key_equal = 13
number key_backspace = 14
number key_tab = 15
number key_q = 16
number key_w = 17
number key_e = 18
number key_r = 19
number key_t = 20
number key_y = 21
number key_u = 22
number key_i = 23
number key_o = 24
number key_p = 25
number key_leftbrace = 26
number key_rightbrace = 27
number key_enter = 28
number key_leftctrl = 29
number key_a = 30
number key_s = 31
number key_d = 32
number key_f = 33
number key_g = 34
number key_h = 35
number key_j = 36
number key_k = 37
number key_l = 38
number key_semicolon = 39
number key_apostrophe = 40
number key_grave = 41
number key_leftshift = 42
number key_backslash = 43
number key_z = 44
number key_x = 45
number key_c = 46
number key_v = 47
number key_b = 48
number key_n = 49
number key_m = 50
number key_comma = 51
number key_dot = 52
number key_slash = 53
number key_rightshift = 54
number key_kpasterisk = 55
number key_leftalt = 56
number key_space = 57
number key_capslock = 58
number key_f1 = 59
number key_f2 = 60
number key_f3 = 61
number key_f4 = 62
number key_f5 = 63
number key_f6 = 64
number key_f7 = 65
number key_f8 = 66
number key_f9 = 67
number key_f10 = 68
number key_numlock = 69
number key_scrolllock = 70
number key_kp7 = 71
number key_kp8 = 72
number key_kp9 = 73
number key_kpminus = 74
number key_kp4 = 75
number key_kp5 = 76
number key_kp6 = 77
number key_kpplus = 78
number key_kp1 = 79
number key_kp2 = 80
number key_kp3 = 81
number key_kp0 = 82
number key_kpdot = 83
number key_f11 = 84
number key_f12 = 85
number key_rightctrl = 86
number key_rightalt = 87
number key_home = 88
number key_up = 89
number key_pageup = 90
number key_left = 91
number key_right = 92
number key_end = 93
number key_down = 94
number key_pagedown = 95
number key_insert = 96
number key_delete = 97
number key_leftmeta = 98
number key_rightmeta = 99
number key_kpenter = 100
number key_kpslash = 101

-- `KEY_MAX`
abbrev pub key_max : ℕ
key_max = 102

-- An entry that the initialiser of a table leaves out is 0, `KEY_NONE`.
abbrev pub scancode_table : List Key
scancode_table =
    key_none ∷ key_esc ∷ key_1 ∷ key_2 ∷ key_3 ∷ key_4 ∷ key_5 ∷ key_6 ∷ key_7 ∷ key_8 ∷ key_9
    ∷ key_0 ∷ key_minus ∷ key_equal ∷ key_backspace ∷ key_tab ∷ key_q ∷ key_w ∷ key_e ∷ key_r
    ∷ key_t ∷ key_y ∷ key_u ∷ key_i ∷ key_o ∷ key_p ∷ key_leftbrace ∷ key_rightbrace ∷ key_enter
    ∷ key_leftctrl ∷ key_a ∷ key_s ∷ key_d ∷ key_f ∷ key_g ∷ key_h ∷ key_j ∷ key_k ∷ key_l
    ∷ key_semicolon ∷ key_apostrophe ∷ key_grave ∷ key_leftshift ∷ key_backslash ∷ key_z ∷ key_x
    ∷ key_c ∷ key_v ∷ key_b ∷ key_n ∷ key_m ∷ key_comma ∷ key_dot ∷ key_slash ∷ key_rightshift
    ∷ key_kpasterisk ∷ key_leftalt ∷ key_space ∷ key_capslock ∷ key_f1 ∷ key_f2 ∷ key_f3 ∷ key_f4
    ∷ key_f5 ∷ key_f6 ∷ key_f7 ∷ key_f8 ∷ key_f9 ∷ key_f10 ∷ key_numlock ∷ key_scrolllock ∷ key_kp7
    ∷ key_kp8 ∷ key_kp9 ∷ key_kpminus ∷ key_kp4 ∷ key_kp5 ∷ key_kp6 ∷ key_kpplus ∷ key_kp1 ∷ key_kp2
    ∷ key_kp3 ∷ key_kp0 ∷ key_kpdot ∷ key_none ∷ key_none ∷ key_none ∷ key_f11 ∷ key_f12 ∷ key_none
    ∷ key_none ∷ key_none ∷ key_none ∷ key_none ∷ key_none ∷ key_none ∷ key_none ∷ key_none
    ∷ key_none ∷ key_none ∷ key_none ∷ key_none ∷ key_none ∷ key_none ∷ key_none ∷ key_none
    ∷ key_none ∷ key_none ∷ key_none ∷ key_none ∷ key_none ∷ key_none ∷ key_none ∷ key_none
    ∷ key_none ∷ key_none ∷ key_none ∷ key_none ∷ key_none ∷ key_none ∷ key_none ∷ key_none
    ∷ key_none ∷ key_none ∷ key_none ∷ key_none ∷ key_none ∷ key_none ∷ []

abbrev pub scancode_e0_table : List Key
scancode_e0_table =
    key_none ∷ key_none ∷ key_none ∷ key_none ∷ key_none ∷ key_none ∷ key_none ∷ key_none ∷ key_none
    ∷ key_none ∷ key_none ∷ key_none ∷ key_none ∷ key_none ∷ key_none ∷ key_none ∷ key_none
    ∷ key_none ∷ key_none ∷ key_none ∷ key_none ∷ key_none ∷ key_none ∷ key_none ∷ key_none
    ∷ key_none ∷ key_none ∷ key_none ∷ key_kpenter ∷ key_rightctrl ∷ key_none ∷ key_none ∷ key_none
    ∷ key_none ∷ key_none ∷ key_none ∷ key_none ∷ key_none ∷ key_none ∷ key_none ∷ key_none
    ∷ key_none ∷ key_none ∷ key_none ∷ key_none ∷ key_none ∷ key_none ∷ key_none ∷ key_none
    ∷ key_none ∷ key_none ∷ key_none ∷ key_none ∷ key_kpslash ∷ key_none ∷ key_none ∷ key_rightalt
    ∷ key_none ∷ key_none ∷ key_none ∷ key_none ∷ key_none ∷ key_none ∷ key_none ∷ key_none
    ∷ key_none ∷ key_none ∷ key_none ∷ key_none ∷ key_none ∷ key_none ∷ key_home ∷ key_up
    ∷ key_pageup ∷ key_none ∷ key_left ∷ key_none ∷ key_right ∷ key_none ∷ key_end ∷ key_down
    ∷ key_pagedown ∷ key_insert ∷ key_delete ∷ key_none ∷ key_none ∷ key_none ∷ key_none ∷ key_none
    ∷ key_none ∷ key_none ∷ key_leftmeta ∷ key_rightmeta ∷ key_none ∷ key_none ∷ key_none ∷ key_none
    ∷ key_none ∷ key_none ∷ key_none ∷ key_none ∷ key_none ∷ key_none ∷ key_none ∷ key_none
    ∷ key_none ∷ key_none ∷ key_none ∷ key_none ∷ key_none ∷ key_none ∷ key_none ∷ key_none
    ∷ key_none ∷ key_none ∷ key_none ∷ key_none ∷ key_none ∷ key_none ∷ key_none ∷ key_none
    ∷ key_none ∷ key_none ∷ key_none ∷ key_none ∷ key_none ∷ key_none ∷ key_none ∷ []

abbrev pub key_at : List Key → ℕ → Key
key_at [] i = key_none
key_at (k ∷ ks) zero = k
key_at (k ∷ ks) (suc i) = key_at ks i

unfoldable pub scancode_to_key : ℕ → Key
scancode_to_key code = key_at scancode_table code

unfoldable pub scancode_to_key_e0 : ℕ → Key
scancode_to_key_e0 code = key_at scancode_e0_table code
