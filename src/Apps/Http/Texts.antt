-- ===== src/Apps/Http/Texts.antt =====
-- The texts of examples/http_server.cc, as the bytes of their UTF-8 encoding.
use reactor_chat_server.Common.{[], ◌∷◌, Bytes}

-- The entities.
abbrev pub amp_text : Bytes
amp_text = 38 ∷ 97 ∷ 109 ∷ 112 ∷ 59 ∷ []

abbrev pub lt_text : Bytes
lt_text = 38 ∷ 108 ∷ 116 ∷ 59 ∷ []

abbrev pub gt_text : Bytes
gt_text = 38 ∷ 103 ∷ 116 ∷ 59 ∷ []

-- The end of a line, and the end of a header.
abbrev pub crlf : Bytes
crlf = 13 ∷ 10 ∷ []

abbrev pub end_of_head : Bytes
end_of_head = 13 ∷ 10 ∷ 13 ∷ 10 ∷ []

-- The page: in front of the method, between the method and the path, and behind the path.
abbrev pub page_start : Bytes
page_start =
    60 ∷ 33 ∷ 100 ∷ 111 ∷ 99 ∷ 116 ∷ 121 ∷ 112 ∷ 101 ∷ 32 ∷ 104 ∷ 116 ∷ 109 ∷ 108 ∷ 62 ∷ 60 ∷ 104
    ∷ 116 ∷ 109 ∷ 108 ∷ 62 ∷ 60 ∷ 104 ∷ 101 ∷ 97 ∷ 100 ∷ 62 ∷ 60 ∷ 109 ∷ 101 ∷ 116 ∷ 97 ∷ 32 ∷ 99
    ∷ 104 ∷ 97 ∷ 114 ∷ 115 ∷ 101 ∷ 116 ∷ 61 ∷ 34 ∷ 117 ∷ 116 ∷ 102 ∷ 45 ∷ 56 ∷ 34 ∷ 62 ∷ 60 ∷ 116
    ∷ 105 ∷ 116 ∷ 108 ∷ 101 ∷ 62 ∷ 110 ∷ 101 ∷ 116 ∷ 108 ∷ 105 ∷ 98 ∷ 32 ∷ 104 ∷ 116 ∷ 116 ∷ 112
    ∷ 32 ∷ 100 ∷ 101 ∷ 109 ∷ 111 ∷ 60 ∷ 47 ∷ 116 ∷ 105 ∷ 116 ∷ 108 ∷ 101 ∷ 62 ∷ 60 ∷ 47 ∷ 104 ∷ 101
    ∷ 97 ∷ 100 ∷ 62 ∷ 60 ∷ 98 ∷ 111 ∷ 100 ∷ 121 ∷ 62 ∷ 60 ∷ 104 ∷ 49 ∷ 62 ∷ 110 ∷ 101 ∷ 116 ∷ 108
    ∷ 105 ∷ 98 ∷ 32 ∷ 72 ∷ 84 ∷ 84 ∷ 80 ∷ 32 ∷ 100 ∷ 101 ∷ 109 ∷ 111 ∷ 60 ∷ 47 ∷ 104 ∷ 49 ∷ 62 ∷ 60
    ∷ 112 ∷ 62 ∷ 89 ∷ 111 ∷ 117 ∷ 32 ∷ 114 ∷ 101 ∷ 113 ∷ 117 ∷ 101 ∷ 115 ∷ 116 ∷ 101 ∷ 100 ∷ 58 ∷ 32
    ∷ 60 ∷ 98 ∷ 62 ∷ []

abbrev pub page_middle : Bytes
page_middle = 60 ∷ 47 ∷ 98 ∷ 62 ∷ 32 ∷ 60 ∷ 99 ∷ 111 ∷ 100 ∷ 101 ∷ 62 ∷ []

abbrev pub page_end : Bytes
page_end =
    60 ∷ 47 ∷ 99 ∷ 111 ∷ 100 ∷ 101 ∷ 62 ∷ 60 ∷ 47 ∷ 112 ∷ 62 ∷ 60 ∷ 112 ∷ 62 ∷ 229 ∷ 164 ∷ 141 ∷ 231
    ∷ 148 ∷ 168 ∷ 229 ∷ 144 ∷ 140 ∷ 228 ∷ 184 ∷ 128 ∷ 229 ∷ 165 ∷ 151 ∷ 32 ∷ 101 ∷ 112 ∷ 111 ∷ 108
    ∷ 108 ∷ 32 ∷ 47 ∷ 32 ∷ 228 ∷ 184 ∷ 187 ∷ 228 ∷ 187 ∷ 142 ∷ 32 ∷ 82 ∷ 101 ∷ 97 ∷ 99 ∷ 116 ∷ 111
    ∷ 114 ∷ 32 ∷ 231 ∷ 189 ∷ 145 ∷ 231 ∷ 187 ∷ 156 ∷ 229 ∷ 186 ∷ 147 ∷ 239 ∷ 188 ∷ 136 ∷ 110 ∷ 101
    ∷ 116 ∷ 47 ∷ 239 ∷ 188 ∷ 137 ∷ 229 ∷ 174 ∷ 158 ∷ 231 ∷ 142 ∷ 176 ∷ 227 ∷ 128 ∷ 130 ∷ 60 ∷ 47
    ∷ 112 ∷ 62 ∷ 60 ∷ 47 ∷ 98 ∷ 111 ∷ 100 ∷ 121 ∷ 62 ∷ 60 ∷ 47 ∷ 104 ∷ 116 ∷ 109 ∷ 108 ∷ 62 ∷ 10
    ∷ []

-- The header: in front of the length of the page, and behind it.
abbrev pub head_start : Bytes
head_start =
    72 ∷ 84 ∷ 84 ∷ 80 ∷ 47 ∷ 49 ∷ 46 ∷ 49 ∷ 32 ∷ 50 ∷ 48 ∷ 48 ∷ 32 ∷ 79 ∷ 75 ∷ 13 ∷ 10 ∷ 67 ∷ 111
    ∷ 110 ∷ 116 ∷ 101 ∷ 110 ∷ 116 ∷ 45 ∷ 84 ∷ 121 ∷ 112 ∷ 101 ∷ 58 ∷ 32 ∷ 116 ∷ 101 ∷ 120 ∷ 116 ∷ 47
    ∷ 104 ∷ 116 ∷ 109 ∷ 108 ∷ 59 ∷ 32 ∷ 99 ∷ 104 ∷ 97 ∷ 114 ∷ 115 ∷ 101 ∷ 116 ∷ 61 ∷ 117 ∷ 116 ∷ 102
    ∷ 45 ∷ 56 ∷ 13 ∷ 10 ∷ 67 ∷ 111 ∷ 110 ∷ 116 ∷ 101 ∷ 110 ∷ 116 ∷ 45 ∷ 76 ∷ 101 ∷ 110 ∷ 103 ∷ 116
    ∷ 104 ∷ 58 ∷ 32 ∷ []

abbrev pub head_end : Bytes
head_end =
    13 ∷ 10 ∷ 67 ∷ 111 ∷ 110 ∷ 110 ∷ 101 ∷ 99 ∷ 116 ∷ 105 ∷ 111 ∷ 110 ∷ 58 ∷ 32 ∷ 99 ∷ 108 ∷ 111
    ∷ 115 ∷ 101 ∷ 13 ∷ 10 ∷ 13 ∷ 10 ∷ []
