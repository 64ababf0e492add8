-- ===== src/Input/Tests.antt =====
-- Typing on a concrete device.
use titan_share.Prelude.{◌≡◌, refl, true, false, some, codes}
use titan_share.Input.{VirtualInput, type_text, ascii_map}
use titan_share.Input.Typing.{shown, typable, is_typable, shown-type_text}

abbrev device : VirtualInput
device = record { mouse_fd = some 3; kb_fd = some 4; initialized = true }

shown-type_text_example :
    shown false (type_text device (codes "Hi, 5%!\n")) ≡ typable (codes "Hi, 5%!\n")
shown-type_text_example = shown-type_text device (codes "Hi, 5%!\n") refl

all_typable : typable (codes "Hi, 5%!\n") ≡ codes "Hi, 5%!\n"
unfolding typable is_typable ascii_map
all_typable = refl
