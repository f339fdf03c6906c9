-- ===== src/Common/Attachment.antt =====
-- pkg/common/service.go: an error together with the attachments of a reply.
use triple.Base.{Option, none, some, Exit, returned, panicked}
use triple.Base.Dict.{Dict}
use triple.Common.Error.{Err, Value}

abbrev pub DubboAttachment : Type 0
DubboAttachment = Dict Value

pub record ErrorWithAttachment : Type 0 where
  pub err : Option Err
  pub attachments : DubboAttachment

unfoldable pub new_error_with_attachment : Option Err → DubboAttachment → ErrorWithAttachment
new_error_with_attachment e a = record { err = e; attachments = a }

unfoldable pub get_attachments : ErrorWithAttachment → DubboAttachment
get_attachments e = e.attachments

unfoldable pub get_error : ErrorWithAttachment → Option Err
get_error e = e.err

-- `e.err.Error()`: the error whose text is the result, and a panic where it is nil.
unfoldable pub error_text : ErrorWithAttachment → Exit Err
error_text e = elim e.err [ none ↦ panicked | some x ↦ returned x ]
