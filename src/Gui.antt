-- ===== src/Gui.antt =====
-- The window of the moderators, root/serverGUI/src/mainwindowserver.cpp: its frames over a QTcpSocket,
-- its commands, and the tables that it fills from the answers.
pub mod Text
pub mod Frames
pub mod Commands
pub mod Tables
pub mod Dates
