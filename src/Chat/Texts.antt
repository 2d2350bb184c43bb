-- ===== src/Chat/Texts.antt =====
-- The texts of src/chat/ChatServer.cc, as the bytes of their UTF-8 encoding.
use reactor_chat_server.Common.{[], ◌∷◌, Bytes}

-- The greeting of `onConnection`.
abbrev pub welcome_text : Bytes
welcome_text =
    230 ∷ 172 ∷ 162 ∷ 232 ∷ 191 ∷ 142 ∷ 239 ∷ 188 ∷ 129 ∷ 231 ∷ 148 ∷ 168 ∷ 32 ∷ 47 ∷ 110 ∷ 105 ∷ 99
    ∷ 107 ∷ 32 ∷ 60 ∷ 229 ∷ 144 ∷ 141 ∷ 62 ∷ 32 ∷ 232 ∷ 174 ∷ 190 ∷ 230 ∷ 152 ∷ 181 ∷ 231 ∷ 167
    ∷ 176 ∷ 239 ∷ 188 ∷ 140 ∷ 47 ∷ 106 ∷ 111 ∷ 105 ∷ 110 ∷ 32 ∷ 60 ∷ 230 ∷ 136 ∷ 191 ∷ 233 ∷ 151
    ∷ 180 ∷ 62 ∷ 32 ∷ 232 ∷ 191 ∷ 155 ∷ 230 ∷ 136 ∷ 191 ∷ 239 ∷ 188 ∷ 140 ∷ 47 ∷ 119 ∷ 104 ∷ 111
    ∷ 32 ∷ 231 ∷ 156 ∷ 139 ∷ 229 ∷ 156 ∷ 168 ∷ 231 ∷ 186 ∷ 191 ∷ 239 ∷ 188 ∷ 140 ∷ 47 ∷ 113 ∷ 117
    ∷ 105 ∷ 116 ∷ 32 ∷ 233 ∷ 128 ∷ 128 ∷ 229 ∷ 135 ∷ 186 ∷ 227 ∷ 128 ∷ 130 ∷ 10 ∷ []

-- The answer to `/nick`, before the nick.
abbrev pub nick_set_text : Bytes
nick_set_text =
    230 ∷ 152 ∷ 181 ∷ 231 ∷ 167 ∷ 176 ∷ 229 ∷ 183 ∷ 178 ∷ 232 ∷ 174 ∷ 190 ∷ 228 ∷ 184 ∷ 186 ∷ 32
    ∷ []

-- The answer to `/join` without a room.
abbrev pub empty_room_text : Bytes
empty_room_text =
    230 ∷ 136 ∷ 191 ∷ 233 ∷ 151 ∷ 180 ∷ 229 ∷ 144 ∷ 141 ∷ 228 ∷ 184 ∷ 141 ∷ 232 ∷ 131 ∷ 189 ∷ 228
    ∷ 184 ∷ 186 ∷ 231 ∷ 169 ∷ 186 ∷ 227 ∷ 128 ∷ 130 ∷ 10 ∷ []

-- The nick under which a join is announced.
abbrev pub system_text : Bytes
system_text = 231 ∷ 179 ∷ 187 ∷ 231 ∷ 187 ∷ 159 ∷ []

-- The announcement of a join, behind the nick.
abbrev pub joined_text : Bytes
joined_text =
    32 ∷ 229 ∷ 138 ∷ 160 ∷ 229 ∷ 133 ∷ 165 ∷ 228 ∷ 186 ∷ 134 ∷ 230 ∷ 136 ∷ 191 ∷ 233 ∷ 151 ∷ 180
    ∷ []

-- The answer to `/who`, before the nicks.
abbrev pub online_text : Bytes
online_text = 229 ∷ 156 ∷ 168 ∷ 231 ∷ 186 ∷ 191 ∷ 58 ∷ 32 ∷ []

-- The answer to a text outside a room.
abbrev pub join_first_text : Bytes
join_first_text =
    232 ∷ 175 ∷ 183 ∷ 229 ∷ 133 ∷ 136 ∷ 32 ∷ 47 ∷ 106 ∷ 111 ∷ 105 ∷ 110 ∷ 32 ∷ 228 ∷ 184 ∷ 128 ∷ 228
    ∷ 184 ∷ 170 ∷ 230 ∷ 136 ∷ 191 ∷ 233 ∷ 151 ∷ 180 ∷ 229 ∷ 134 ∷ 141 ∷ 229 ∷ 143 ∷ 145 ∷ 232 ∷ 168
    ∷ 128 ∷ 227 ∷ 128 ∷ 130 ∷ 10 ∷ []

-- The farewell to an idle connection.
abbrev pub idle_text : Bytes
idle_text =
    226 ∷ 143 ∷ 177 ∷ 32 ∷ 231 ∷ 169 ∷ 186 ∷ 233 ∷ 151 ∷ 178 ∷ 232 ∷ 182 ∷ 133 ∷ 230 ∷ 151 ∷ 182
    ∷ 239 ∷ 188 ∷ 140 ∷ 230 ∷ 150 ∷ 173 ∷ 229 ∷ 188 ∷ 128 ∷ 232 ∷ 191 ∷ 158 ∷ 230 ∷ 142 ∷ 165 ∷ 227
    ∷ 128 ∷ 130 ∷ 10 ∷ []

-- The command prefixes and commands.
abbrev pub nick_command : Bytes
nick_command = 47 ∷ 110 ∷ 105 ∷ 99 ∷ 107 ∷ 32 ∷ []

abbrev pub join_command : Bytes
join_command = 47 ∷ 106 ∷ 111 ∷ 105 ∷ 110 ∷ 32 ∷ []

abbrev pub who_command : Bytes
who_command = 47 ∷ 119 ∷ 104 ∷ 111 ∷ []

abbrev pub quit_command : Bytes
quit_command = 47 ∷ 113 ∷ 117 ∷ 105 ∷ 116 ∷ []
