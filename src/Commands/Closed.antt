-- ===== src/Commands/Closed.antt =====
-- The commands of tf_io.c on a handle that is not connected.
use libtopfield.Base.{ℕ, ◌≡◌, false, List, none, some}
use libtopfield.Base.Int.{ℤ, negsuc}
use libtopfield.Packet.{TfPacket}
use libtopfield.Handle.{Usb, State}
use libtopfield.Commands.{
  turbo_request, delete_request, mkdir_request, rename_request, tf_cmd_cancel, tf_cmd_ready,
  tf_cmd_reset, tf_cmd_turbo, tf_cmd_delete, tf_cmd_mkdir, tf_cmd_rename, tf_cmd_size, tf_init,
}
use libtopfield.Dir.{dir_request, tf_cmd_dir_first, tf_cmd_dir_next}
use libtopfield.Put.{
  file_send_request, file_data_request, tf_cmd_put, tf_cmd_put_data, tf_cmd_put_done,
}
use libtopfield.Get.{tf_cmd_get, tf_cmd_get_next}
use libtopfield.Mjd.{TimeZone}
use libtopfield.Err
use libtopfield.Msg

-- The arguments of a command.
pub record Arguments : Type 0 where
  pub on : ℤ
  pub path : List ℕ
  pub dest : List ℕ
  pub offset : ℕ
  pub buffer : List ℕ
  pub size : ℕ
  pub stamp : ℤ
  pub stale : List ℕ

-- They fit the requests of the commands.
pub record Fits (a : Arguments) : Type 0 where
  pub turbo : TfPacket
  pub turbo_is : turbo_request a.on ≡ some turbo
  pub delete : TfPacket
  pub delete_is : delete_request a.path ≡ some delete
  pub mkdir : TfPacket
  pub mkdir_is : mkdir_request a.path ≡ some mkdir
  pub rename : TfPacket
  pub rename_is : rename_request a.path a.dest ≡ some rename
  pub dir : TfPacket
  pub dir_is : dir_request a.path ≡ some dir
  pub get : TfPacket
  pub get_is : file_send_request Msg.dir_get a.path a.offset ≡ some get
  pub put : TfPacket
  pub put_is : file_send_request Msg.dir_put a.path a.offset ≡ some put
  pub data_of : TfPacket
  pub data_is : file_data_request a.offset a.buffer ≡ some data_of

-- The same state but for the error.
abbrev pub refused : {W : Type 0} → State W → State W
refused s = record s { tf = record (s.tf) { error = Err.noconn } }

-- The same without a reply pending.
abbrev pub refused_next : {W : Type 0} → State W → State W
refused_next s = record s { tf = record (s.tf) { error = Err.noconn; pending = false } }

pub record Refuses {W : Type 0} (usb : Usb W) (zone : TimeZone) (a : Arguments) (s : State W)
    : Type 0 where
  pub cancel : tf_cmd_cancel usb s ≡ some (Err.noconn, refused s)
  pub ready : tf_cmd_ready usb s ≡ some (Err.noconn, refused s)
  pub reset : tf_cmd_reset usb s ≡ some (Err.noconn, refused s)
  pub turbo : tf_cmd_turbo usb a.on s ≡ some (Err.noconn, refused s)
  pub delete : tf_cmd_delete usb a.path s ≡ some (Err.noconn, refused s)
  pub mkdir : tf_cmd_mkdir usb a.path s ≡ some (Err.noconn, refused s)
  pub rename : tf_cmd_rename usb a.path a.dest s ≡ some (Err.noconn, refused s)
  pub size : tf_cmd_size usb s ≡ some ((Err.noconn, none), refused s)
  pub dir_first : tf_cmd_dir_first usb zone a.path s ≡ some ((Err.noconn, none), refused s)
  pub dir_next : tf_cmd_dir_next usb zone s ≡ some ((Err.noconn, none), refused s)
  pub get : tf_cmd_get usb zone a.path a.offset s ≡ some ((Err.noconn, none), refused s)
  pub get_next : tf_cmd_get_next usb s ≡ some ((Err.noconn, none), refused_next s)
  pub put :
      tf_cmd_put usb zone a.stale a.path a.size a.stamp a.offset s ≡ some (Err.noconn, refused s)
  pub put_data : tf_cmd_put_data usb a.offset a.buffer s ≡ some (Err.noconn, refused s)
  pub put_done : tf_cmd_put_done usb s ≡ some (Err.noconn, refused s)
  pub init : tf_init usb s ≡ some (negsuc 0, refused s)
