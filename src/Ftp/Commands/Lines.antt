-- ===== src/Ftp/Commands/Lines.antt =====
-- The loop of src/ftp_server.cpp that cuts the input of a client into lines.
