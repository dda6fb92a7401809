-- ===== src/Sftp/Handlers.antt =====
-- The dispatch of `process_sftp` in src/sftp_server.cpp over the handlers.
pub mod Confinement
pub mod Kinds
pub mod Logging
pub mod Handles
pub mod Permissions
pub mod Replies
use mock_services.Base.{List, [], ◌∷◌}
use mock_services.Sftp.Messages.{System, Context, Message, Effect, status, op_unsupported}
use mock_services.Sftp.Files.{
  sftp_do_open, sftp_do_close, sftp_do_read, sftp_do_write, sftp_do_opendir, sftp_do_readdir,
  sftp_do_stat, sftp_do_fstat, sftp_do_fsetstat,
}
use mock_services.Sftp.Changes.{
  sftp_do_setstat, sftp_do_mkdir, sftp_do_rmdir, sftp_do_remove, sftp_do_rename, sftp_do_realpath,
}

-- The packet types that `process_sftp` knows, and all others.
pub data PacketType : Type 0 where
  open_ close read write opendir readdir stat_ lstat fstat : PacketType
  setstat fsetstat mkdir rmdir remove rename realpath_ unknown : PacketType

-- The `switch` of `process_sftp`
unfoldable pub handle_message : PacketType → System → Context → Message → List Effect
handle_message open_ = sftp_do_open
handle_message close = sftp_do_close
handle_message read = sftp_do_read
handle_message write = sftp_do_write
handle_message opendir = sftp_do_opendir
handle_message readdir = sftp_do_readdir
handle_message stat_ = sftp_do_stat
handle_message lstat = sftp_do_stat
handle_message fstat = sftp_do_fstat
handle_message setstat = sftp_do_setstat
handle_message fsetstat = sftp_do_fsetstat
handle_message mkdir = sftp_do_mkdir
handle_message rmdir = sftp_do_rmdir
handle_message remove = sftp_do_remove
handle_message rename = sftp_do_rename
handle_message realpath_ = sftp_do_realpath
handle_message unknown = λ os ctx msg. status op_unsupported ∷ []
